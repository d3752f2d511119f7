-- ===== src/Emulator/Frame/Marks.antt =====
-- No part of a turn changes who plays, nor with what radius.
use angry_balls.Base.{
  ℕ, zero, suc, List, [], ◌∷◌, ◌≡◌, refl, ap, ◌∙◌, map, Bool-cases, inl, inr, length, arith,
}
use angry_balls.Double.{Double}
use angry_balls.Units.{Player, Coin, Acceleration}
use angry_balls.Emulator.Coins.{divide_coins}
use angry_balls.Emulator.Coins.Split.{body, touched, award_all, bodies-award, divide_coins-split}
use angry_balls.Emulator.Turns.{accelerate, accelerate_all}
use angry_balls.Emulator.Physics.{
  move_player, move_players, exchange, resolve_collision, collide_pair, collide_with, collide_from,
  resolve_border, bounce, handle_ball_to_border_collisions,
}

-- The marks of a player: what no turn changes.
pub record Mark (N : Type 0) : Type 0 where
  pub id : ℕ
  pub radius : N

module _ {N : Type 0} where
  abbrev pub mark : Player N → Mark N
  mark p = record { id = p.id; radius = p.radius }

  abbrev pub marks : List (Player N) → List (Mark N)
  marks = map mark

  pub marks_of_bodies : (ps qs : List (Player N)) → map body ps ≡ map body qs → marks ps ≡ marks qs
  marks_of_bodies [] [] e = refl
  marks_of_bodies [] (q ∷ qs) e = cc
  marks_of_bodies (p ∷ ps) [] e = cc
  marks_of_bodies (p ∷ ps) (q ∷ qs) e = let rest = marks_of_bodies ps qs (cc) in cc

  map-marks :
      (f : Player N → Player N) (ps : List (Player N))
      → ((p : Player N) → mark (f p) ≡ mark p)
      → marks (map f ps) ≡ marks ps
  map-marks f [] h = refl
  map-marks f (p ∷ ps) h = rw (h p, map-marks f ps h)

module _ {N : Type 0} ⦃d : Double N⦄ where
  pub marks-move_players : (t : N) (ps : List (Player N)) → marks (move_players t ps) ≡ marks ps
  unfolding move_players move_player
  marks-move_players t ps = map-marks (move_player t) ps (λ p. refl)

  mark-bounce : (r : N) (p : Player N) → mark (bounce r p) ≡ mark p
  unfolding bounce resolve_border
  mark-bounce r p = ground arith

  pub marks-handle_ball_to_border_collisions :
      (r : N) (ps : List (Player N)) → marks (handle_ball_to_border_collisions r ps) ≡ marks ps
  unfolding handle_ball_to_border_collisions
  marks-handle_ball_to_border_collisions r ps = map-marks (bounce r) ps (mark-bounce r)

  mark-collide_pair :
      (p q : Player N) → (mark (collide_pair p q).0 ≡ mark p) × (mark (collide_pair p q).1 ≡ mark q)
  unfolding collide_pair resolve_collision exchange
  mark-collide_pair p q = ground arith

  marks-collide_with :
      (p : Player N) (qs : List (Player N))
      → (mark (collide_with p qs).0 ≡ mark p) × (marks (collide_with p qs).1 ≡ marks qs)
  unfolding collide_with
  marks-collide_with p [] = (refl, refl)
  marks-collide_with p (q ∷ qs) =
      let (p', q') = mark-collide_pair p q in
      let (last, rest) = marks-collide_with (collide_pair p q).0 qs in (last ∙ p', rw (q', rest))

  pub marks-collide_from : (n : ℕ) (ps : List (Player N)) → marks (collide_from n ps) ≡ marks ps
  unfolding collide_from
  marks-collide_from zero ps = refl
  marks-collide_from (suc n) [] = refl
  marks-collide_from (suc n) (p ∷ ps) =
      let (last, rest) = marks-collide_with p ps in
      rw (last, marks-collide_from n (collide_with p ps).1, rest)

  bodies-award_all :
      (reach : N) (ps : List (Player N)) (cs : List (Coin N)) (qs : List (Player N))
      → map body (award_all reach ps cs qs) ≡ map body qs
  bodies-award_all reach ps [] qs = refl
  bodies-award_all reach ps (c ∷ cs) qs = elim (Bool-cases (touched reach ps c)) [
    | inl t ↦ rw t (bodies-award_all reach ps cs _ ∙ bodies-award c _ qs)
    | inr t ↦ rw t (bodies-award_all reach ps cs qs)
  ]

  pub bodies-divide_coins :
      (ps : List (Player N)) (cs : List (Coin N)) → map body (divide_coins ps cs).0 ≡ map body ps
  unfolding divide_coins
  bodies-divide_coins [] cs = refl
  bodies-divide_coins (p ∷ ps) [] = refl
  bodies-divide_coins (p ∷ ps) (c ∷ cs) =
      ap (λ r. map body r.0) (divide_coins-split p ps c cs)
      ∙ bodies-award_all _ (p ∷ ps) (c ∷ cs) (p ∷ ps)

  pub marks-accelerate_all :
      (t v : N) (as' : List (Acceleration N)) (ps : List (Player N))
      → length as' ≡ length ps
      → marks (accelerate_all t v as' ps) ≡ marks ps
  unfolding accelerate_all accelerate
  marks-accelerate_all t v [] ps e = refl
  marks-accelerate_all t v (a ∷ as') [] e = absurd (omega arith)
  marks-accelerate_all t v (a ∷ as') (p ∷ ps) e =
      ap (◌∷◌ (mark p)) (marks-accelerate_all t v as' ps (omega arith))
