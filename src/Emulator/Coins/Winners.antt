-- ===== src/Emulator/Coins/Winners.antt =====
-- Who gets a coin: the indices that `DivideCoins` collects.
use mathlib.Core.List.{concat-ne-nil}
use angry_balls.Base.{
  ℕ, suc, ◌+◌, ◌<◌, ◌≤◌, List, [], ◌∷◌, ◌≡◌, ◌≢◌, ◌⊎◌, inr, refl, true, false, length, All,
  All-append, arith,
}
use angry_balls.Double.{Double}
use angry_balls.Geometry.{Point}
use angry_balls.Units.{Player, Coin}
use angry_balls.Emulator.Coins.{Nearest, compare_distance, nearest_from, nearest}
use angry_balls.Emulator.Coins.Split.{touched}

All-weaken : (xs : List ℕ) (m n : ℕ) → m ≤ n → All (λ i. i < m) xs → All (λ i. i < n) xs
All-weaken [] m n h a = tt
All-weaken (x ∷ xs) m n h (a, as') = (omega arith, All-weaken xs m n h as')

module _ {N : Type 0} ⦃d : Double N⦄ where
  -- Before the player `i`: the indices lie below it, and as long as there are none the least
  -- distance is that of the start.
  record Collected (i : ℕ) (n : Nearest N) : Type 0 where
    below : All (λ j. j < i) n.on_the_min_distance
    found : (n.on_the_min_distance ≢ []) ⊎ (n.min_distance ≡ d.max)

  compare_distance-Collected :
      (center : Point N) (i : ℕ) (p : Player N) (n : Nearest N)
      → Collected i n
      → Collected (suc i) (compare_distance center i p n)
  unfolding compare_distance
  compare_distance-Collected center i p n c =
      let wider = All-weaken n.on_the_min_distance i (suc i) (omega arith) c.below in
      ground (
        arith,
        All-append (λ j. j < suc i) n.on_the_min_distance (i ∷ []) wider (omega arith),
        concat-ne-nil i n.on_the_min_distance,
        wider,
      )

  nearest_from-Collected :
      (center : Point N) (i : ℕ) (ps : List (Player N)) (n : Nearest N)
      → Collected i n
      → Collected (i + length ps) (nearest_from center i ps n)
  unfolding nearest_from
  nearest_from-Collected center i [] n c = record {
    below = All-weaken n.on_the_min_distance i (i + 0) (omega arith) c.below;
    found = c.found;
  }
  nearest_from-Collected center i (p ∷ ps) n c =
      let more =
        nearest_from-Collected center (suc i) ps _ (compare_distance-Collected center i p n c) in
      record {
        below = All-weaken _ (suc i + length ps) (i + suc (length ps)) (omega arith) more.below;
        found = more.found;
      }

  -- A coin that is touched, where the radii add up to no more than the largest double, has at least
  -- one winner, so the division by their number is not by zero, and each is a player of the vector.
  pub touched_winners :
      (reach : N) (ps : List (Player N)) (c : Coin N)
      → d.less d.max reach ≡ false
      → touched reach ps c ≡ true
      → (0 < length (nearest ps c).on_the_min_distance)
        × All (λ i. i < length ps) (nearest ps c).on_the_min_distance
  unfolding nearest
  touched_winners reach ps c finite t =
      let start : Nearest N = record { min_distance = d.max; on_the_min_distance = [] } in
      let all =
        nearest_from-Collected c.center 0 ps start (record { below = tt; found = inr refl }) in
      (
        some_winner (nearest_from c.center 0 ps start) all.found finite t,
        All-weaken _ (0 + length ps) (length ps) (omega arith) all.below,
      )
    where
      some_winner :
          (n : Nearest N)
          → (n.on_the_min_distance ≢ []) ⊎ (n.min_distance ≡ d.max)
          → d.less d.max reach ≡ false
          → d.less n.min_distance reach ≡ true
          → 0 < length n.on_the_min_distance
      some_winner n found finite t = ground arith
