-- ===== src/Emulator/Coins/Split.antt =====
-- `DivideCoins` decides about each coin by where the players stand, and the scores that it hands out
-- on the way do not change where they stand.
use angry_balls.Base.{
  ℕ, zero, suc, ◌≤◌, List, [], ◌∷◌, ◌++◌, if◌then◌else◌, ◌==◌, ==_iff, ◌≡◌, refl, ap, ◌∙◌, map,
  Bool, not, Bool-cases, length, append_assoc, append-nil, arith, inl, inr,
}
use angry_balls.Double.{Double}
use angry_balls.Geometry.{Point}
use angry_balls.Units.{Player, Coin, Velocity}
use angry_balls.Emulator.Coins.{
  Nearest, compare_distance, nearest_from, nearest, add_score, add_scores, award, divide_from,
  divide_coins,
}

-- All of a player but the score.
pub record Body (N : Type 0) : Type 0 where
  pub id : ℕ
  pub center : Point N
  pub radius : N
  pub velocity : Velocity N

abbrev pub keep {ℓ} : {A : Type ℓ} → (A → Bool) → List A → List A
keep test [] = []
keep test (a ∷ xs) = let rest = keep test xs in if test a then a ∷ rest else rest

module _ {N : Type 0} where
  abbrev pub body : Player N → Body N
  body p = record { id = p.id; center = p.center; radius = p.radius; velocity = p.velocity }

module _ {N : Type 0} ⦃d : Double N⦄ where
  bodies-add_score :
      (score : N) (ps : List (Player N)) (i : ℕ) → map body (add_score score ps i) ≡ map body ps
  unfolding add_score
  bodies-add_score score [] i = refl
  bodies-add_score score (p ∷ ps) zero = refl
  bodies-add_score score (p ∷ ps) (suc i) = ap (◌∷◌ (body p)) (bodies-add_score score ps i)

  bodies-add_scores :
      (score : N) (winners : List ℕ) (ps : List (Player N))
      → map body (add_scores score winners ps) ≡ map body ps
  unfolding add_scores
  bodies-add_scores score [] ps = refl
  bodies-add_scores score (i ∷ winners) ps =
      bodies-add_scores score winners (add_score score ps i) ∙ bodies-add_score score ps i

  pub bodies-award :
      (c : Coin N) (winners : List ℕ) (ps : List (Player N))
      → map body (award c winners ps) ≡ map body ps
  unfolding award
  bodies-award c winners ps = bodies-add_scores _ winners ps

  nearest_from_congr :
      (center : Point N) (i : ℕ) (ps qs : List (Player N)) (n : Nearest N)
      → map body ps ≡ map body qs
      → nearest_from center i ps n ≡ nearest_from center i qs n
  unfolding nearest_from
  nearest_from_congr center i [] [] n e = refl
  nearest_from_congr center i [] (q ∷ qs) n e = cc
  nearest_from_congr center i (p ∷ ps) [] n e = cc
  nearest_from_congr center i (p ∷ ps) (q ∷ qs) n e =
      let same : compare_distance center i p n ≡ compare_distance center i q n =
        unfold compare_distance in cc in
      rw same (nearest_from_congr center (suc i) ps qs (compare_distance center i q n) (cc))

  pub nearest_congr :
      (ps qs : List (Player N)) (c : Coin N)
      → map body ps ≡ map body qs
      → nearest ps c ≡ nearest qs c
  unfolding nearest
  nearest_congr ps qs c e = nearest_from_congr c.center 0 ps qs _ e

  -- A coin is touched when the least distance found is below the sum of the radii.
  abbrev pub touched : N → List (Player N) → Coin N → Bool
  touched reach ps c = d.less (nearest ps c).min_distance reach

  -- The coins in order, each awarded by where the players stand in `ps`.
  abbrev pub award_all : N → List (Player N) → List (Coin N) → List (Player N) → List (Player N)
  award_all reach ps [] qs = qs
  award_all reach ps (c ∷ cs) qs =
      award_all reach ps cs
        (if touched reach ps c then award c (nearest ps c).on_the_min_distance qs else qs)

  module _ (reach : N) (ps : List (Player N)) where
    divide_from-split :
        (left cs : List (Coin N)) (qs : List (Player N))
        → map body qs ≡ map body ps
        → divide_from reach left cs qs
          ≡ (award_all reach ps cs qs, left ++ keep (λ c. not (touched reach ps c)) cs)
    unfolding divide_from
    divide_from-split left [] qs e = rw append-nil
    divide_from-split left (c ∷ cs) qs e =
        rw (nearest_congr qs ps c e) (elim (Bool-cases (touched reach ps c)) [
          | inl yes' ↦ rw yes' (
              divide_from-split left cs (award c (nearest ps c).on_the_min_distance qs)
                (bodies-award c _ qs ∙ e))
          | inr no' ↦ rw no' (divide_from-split (left ++ c ∷ []) cs qs e ∙ rw append_assoc)
        ])

length-keep {ℓ} : {A : Type ℓ} (test : A → Bool) (xs : List A) → length (keep test xs) ≤ length xs
length-keep test [] = omega arith
length-keep test (x ∷ xs) = ground (arith, length-keep test xs)

keep_all {ℓ} :
    {A : Type ℓ} (test : A → Bool) (xs : List A)
    → length (keep test xs) ≡ length xs
    → keep test xs ≡ xs
keep_all test [] h = refl
keep_all test (x ∷ xs) h = ground (arith, length-keep test xs, keep_all test xs)

module _ {N : Type 0} ⦃d : Double N⦄ where
  -- For players and coins of which there are some: the coins are decided one by one, in their
  -- order, by `nearest` of where the players stood at the start.
  pub divide_coins-split :
      (p : Player N) (ps : List (Player N)) (c : Coin N) (cs : List (Coin N))
      → let reach = d.sum p.radius c.radius in
        divide_coins (p ∷ ps) (c ∷ cs) ≡ (
          award_all reach (p ∷ ps) (c ∷ cs) (p ∷ ps),
          keep (λ k. not (touched reach (p ∷ ps) k)) (c ∷ cs),
        )
  unfolding divide_coins
  divide_coins-split p ps c cs =
      let reach = d.sum p.radius c.radius in
      let test = λ (k : Coin N). not (touched reach (p ∷ ps) k) in
      rw (divide_from-split reach (p ∷ ps) [] (c ∷ cs) (p ∷ ps) refl)
        (elim (Bool-cases (length (keep test (c ∷ cs)) == length (c ∷ cs))) [
          | inl same ↦ rw (same, keep_all test (c ∷ cs) ((==_iff _ _).0 same))
          | inr other ↦ rw other
        ])
