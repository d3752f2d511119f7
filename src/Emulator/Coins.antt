-- ===== src/Emulator/Coins.antt =====
-- lib/emulator/helpers.cpp, `DivideCoins`: the coins go, in equal parts, to players that are nearest up to an
-- epsilon, if they are near enough; `Choice` and `Shares` describe who gets what.
pub mod Choice
pub mod Shares
pub mod Split
pub mod Winners
use angry_balls.Base.{ℕ, zero, suc, List, [], ◌∷◌, ◌++◌, if◌then◌else◌, ◌==◌}
use angry_balls.Base
use angry_balls.Double.{Double, ◌+◌, ◌/◌, ◌<◌, real}
use angry_balls.Geometry.{Point, distance, less, equal}
use angry_balls.Units.{Player, Coin}

-- `min_distance` and `on_the_min_distance`.
pub record Nearest (N : Type 0) : Type 0 where
  pub min_distance : N
  pub on_the_min_distance : List ℕ

module _ {N : Type 0} ⦃d : Double N⦄ where
  -- The body of the loop over the players, at `index`.
  unfoldable pub compare_distance : Point N → ℕ → Player N → Nearest N → Nearest N
  compare_distance center index p n =
      let far = distance center p.center in
      if less far n.min_distance d.micro
      then record { min_distance = far; on_the_min_distance = index ∷ [] }
      else if equal far n.min_distance d.micro
      then record n { on_the_min_distance = n.on_the_min_distance ++ index ∷ [] }
      else n

  unfoldable pub nearest_from : Point N → ℕ → List (Player N) → Nearest N → Nearest N
  nearest_from center index [] n = n
  nearest_from center index (p ∷ ps) n =
      nearest_from center (suc index) ps (compare_distance center index p n)

  unfoldable pub nearest : List (Player N) → Coin N → Nearest N
  nearest ps coin =
      nearest_from coin.center 0 ps (record { min_distance = d.max; on_the_min_distance = [] })

  -- `players[index].score += score_to_add`.
  unfoldable pub add_score : N → List (Player N) → ℕ → List (Player N)
  add_score score_to_add [] index = []
  add_score score_to_add (p ∷ ps) zero = record p { score = p.score + score_to_add } ∷ ps
  add_score score_to_add (p ∷ ps) (suc index) = p ∷ add_score score_to_add ps index

  unfoldable pub add_scores : N → List ℕ → List (Player N) → List (Player N)
  add_scores score_to_add [] ps = ps
  add_scores score_to_add (i ∷ is) ps = add_scores score_to_add is (add_score score_to_add ps i)

  unfoldable pub award : Coin N → List ℕ → List (Player N) → List (Player N)
  award coin winners ps = add_scores (coin.value / real (Base.length winners)) winners ps

  -- The loop over the coins, with the coins left so far; `reach` is the sum of the two radii.
  unfoldable pub divide_from :
      N → List (Coin N) → List (Coin N) → List (Player N) → List (Player N) × List (Coin N)
  divide_from reach left [] ps = (ps, left)
  divide_from reach left (coin ∷ coins) ps =
      let n = nearest ps coin in
      let taken = n.min_distance < reach in
      divide_from reach (if taken then left else left ++ coin ∷ []) coins
        (if taken then award coin n.on_the_min_distance ps else ps)

  unfoldable pub divide_coins : List (Player N) → List (Coin N) → List (Player N) × List (Coin N)
  divide_coins [] coins = ([], coins)
  divide_coins (p ∷ ps) [] = (p ∷ ps, [])
  divide_coins (p ∷ ps) (c ∷ cs) =
      let (players, left) = divide_from (p.radius + c.radius) [] (c ∷ cs) (p ∷ ps) in
      (players, if Base.length left == Base.length (c ∷ cs) then c ∷ cs else left)
