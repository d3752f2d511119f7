-- ===== src/Emulator/Frame.antt =====
-- What a turn leaves alone, and when it can be carried out at all.
mod Marks
mod Left
pub use Left.{IsLeft}
pub use Marks.{Mark, mark, marks}
use Left.{nothing, IsLeft-refl, IsLeft-trans, IsLeft-keep}
use Marks.{
  marks_of_bodies, marks-move_players, marks-handle_ball_to_border_collisions, marks-collide_from,
  bodies-divide_coins, marks-accelerate_all,
}
use mathlib.Core.Option
use angry_balls.Base.{
  ℕ, zero, suc, ◌+◌, ◌<◌, List, [], ◌∷◌, ◌++◌, ◌≡◌, refl, sym, ap, ◌∙◌, map, Option, none, some,
  All, length, length-map, not, ltb, ◌==◌, arith, Option-cases, inl, inr, lt→ltb, ==_iff,
  append_assoc,
}
use angry_balls.Double.{Double, ◌/◌, real}
use angry_balls.Units.{Player, Coin, FieldState, Turn, Acceleration}
use angry_balls.Emulator.{Emulated, done, fault, Fault, emulate_step, emulate_steps, emulate}
use angry_balls.Emulator.Coins.{divide_coins}
use angry_balls.Emulator.Coins.Split.{touched, divide_coins-split}
use angry_balls.Emulator.Turns.{find_turn, accelerate_all, get_accelerations, apply_acceleration}
use angry_balls.Emulator.Physics.{
  move_players, collide_from, handle_ball_to_ball_collisions, handle_ball_to_border_collisions,
}

-- The part of the state that a turn does not move.
pub record IsFrame {N : Type 0} (s s' : FieldState N) : Type 0 where
  pub id : s'.id ≡ s.id
  pub radius : s'.radius ≡ s.radius
  pub time_delta : s'.time_delta ≡ s.time_delta
  pub velocity_max : s'.velocity_max ≡ s.velocity_max
  pub players : marks s'.players ≡ marks s.players
  pub coins : IsLeft s'.coins s.coins

module _ {N : Type 0} ⦃d : Double N⦄ where
  IsLeft-divide_coins :
      (ps : List (Player N)) (cs : List (Coin N)) → IsLeft (divide_coins ps cs).1 cs
  unfolding divide_coins
  IsLeft-divide_coins [] cs = IsLeft-refl cs
  IsLeft-divide_coins (p ∷ ps) [] = nothing
  IsLeft-divide_coins (p ∷ ps) (c ∷ cs) =
      rw (ap (λ (r : List (Player N) × List (Coin N)). r.1) (divide_coins-split p ps c cs))
        (IsLeft-keep (λ k. not (touched (d.sum p.radius c.radius) (p ∷ ps) k)) (c ∷ cs))

  emulate_step-IsFrame : (t : N) (s : FieldState N) → IsFrame s (emulate_step t s)
  unfolding emulate_step handle_ball_to_ball_collisions
  emulate_step-IsFrame t s =
      let moved = move_players t s.players in
      let bounced = collide_from (length moved) moved in
      let inside = handle_ball_to_border_collisions s.radius bounced in
      record {
        id = refl;
        radius = refl;
        time_delta = refl;
        velocity_max = refl;
        players =
            marks_of_bodies _ _ (bodies-divide_coins inside s.coins)
            ∙ marks-handle_ball_to_border_collisions s.radius bounced
            ∙ marks-collide_from (length moved) moved
            ∙ marks-move_players t s.players;
        coins = IsLeft-divide_coins inside s.coins;
      }

  IsFrame-trans : {s t u : FieldState N} → IsFrame s t → IsFrame t u → IsFrame s u
  IsFrame-trans f g = record {
    id = g.id ∙ f.id;
    radius = g.radius ∙ f.radius;
    time_delta = g.time_delta ∙ f.time_delta;
    velocity_max = g.velocity_max ∙ f.velocity_max;
    players = g.players ∙ f.players;
    coins = IsLeft-trans g.coins f.coins;
  }

  emulate_steps-IsFrame : (n : ℕ) (t : N) (s : FieldState N) → IsFrame s (emulate_steps n t s)
  unfolding emulate_steps
  emulate_steps-IsFrame zero t s = record {
    id = refl;
    radius = refl;
    time_delta = refl;
    velocity_max = refl;
    players = refl;
    coins = IsLeft-refl s.coins;
  }
  emulate_steps-IsFrame (suc n) t s =
      IsFrame-trans (emulate_step-IsFrame t s) (emulate_steps-IsFrame n t (emulate_step t s))

  length-get_accelerations :
      (ps : List (Player N)) (ts : List (Turn N)) {as' : List (Acceleration N)}
      → get_accelerations ps ts ≡ some as'
      → length as' ≡ length ps
  unfolding get_accelerations
  length-get_accelerations [] ts e = ground arith
  length-get_accelerations (p ∷ ps) ts e = elim (Option-cases (get_accelerations ps ts)) [
    | inl bad ↦ ground arith
    | inr (rest, good) ↦ ground (arith, length-get_accelerations ps ts good)
  ]

  apply_acceleration-marks :
      (ts : List (Turn N)) (t v : N) (ps : List (Player N)) {qs : List (Player N)}
      → apply_acceleration ts t v ps ≡ some qs
      → marks qs ≡ marks ps
  unfolding apply_acceleration
  apply_acceleration-marks ts t v ps e = elim (Option-cases (get_accelerations ps ts)) [
    | inl bad ↦ ground arith
    | inr (as', good) ↦
        ground (arith, marks-accelerate_all t v as' ps (length-get_accelerations ps ts good))
  ]

  -- Whenever a turn is carried out, the players keep their order, their ids and their radii, the
  -- constants and the number of the state stay, and the coins left are coins that were there, in
  -- their order.
  pub emulate-IsFrame :
      (steps_number : ℕ) (turns : List (Turn N)) (s : FieldState N) {s' : FieldState N}
      → emulate steps_number turns s ≡ done s'
      → IsFrame s s'
  unfolding emulate
  emulate-IsFrame steps_number turns s e = elim (Option-cases moved) [
    | inl bad ↦ ground arith
    | inr (ps, good) ↦
        let step = (s.time_delta / real 100) / real steps_number in
        let started : FieldState N = record s { players = ps } in
        let all = emulate_steps-IsFrame steps_number step started in
        ground
          (arith, all, apply_acceleration-marks turns s.time_delta s.velocity_max s.players good)
  ]
    where
      moved : Option (List (Player N))
      moved = apply_acceleration turns s.time_delta s.velocity_max s.players
