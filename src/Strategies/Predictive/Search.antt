-- ===== src/Strategies/Predictive/Search.antt =====
-- `GetBestMove` of src/strategies/predictive_strategy.cpp: which coin a player reaches first when he
-- accelerates in one of a hundred directions all the time.
use angry_balls.Base.{ℕ, zero, suc, List, [], ◌∷◌, Option, none, some, map, if◌then◌else◌}
use angry_balls.Double.{Double, ◌+◌, ◌-◌, ◌*◌, ◌/◌, ◌<=◌, real, one, two}
use angry_balls.Double
use angry_balls.Geometry.{Point}
use angry_balls.Units.{Player, Coin, FieldState, Acceleration}
use angry_balls.Strategies.Predictive.Simulation.{pi, get_next_state}

-- `coin_id` is `none` for -1.
pub record BestMoveToCoin (N : Type 0) : Type 0 where
  pub best_time : N
  pub best_acceleration : Acceleration N
  pub coin_id : Option ℕ

-- A state of the search: each acceleration with the player that it has led to.
abbrev pub Courses : Type 0 → Type 0
Courses N = List (Acceleration N × Player N)

-- What the loop over the angles does: it returns, or it ends with the next states.
pub data Swept (N : Type 0) : Type 0 where
  reached : Acceleration N → ℕ → Swept N
  moved : Courses N → Swept N

module _ {N : Type 0} ⦃d : Double N⦄ where
  -- `player_accelerations`, from one angle on.
  unfoldable pub accelerations_from : ℕ → ℕ → List (Acceleration N)
  accelerations_from zero angle_index = []
  accelerations_from (suc n) angle_index =
      let angle = two * pi * real angle_index / real 100 in
      record { x = d.cos angle; y = d.sin angle } ∷ accelerations_from n (suc angle_index)

  abbrev pub player_accelerations : List (Acceleration N)
  player_accelerations = accelerations_from 100 0

  -- The loop over the coins; `radius` is that of the player on the field.
  unfoldable pub coin_at : N → Point N → ℕ → List (Coin N) → Option ℕ
  coin_at radius center coin_index [] = none
  coin_at radius center coin_index (c ∷ cs) =
      let later = coin_at radius center (suc coin_index) cs in
      let dist_to_coin = d.sqrt (
        (center.x - c.center.x) * (center.x - c.center.x)
        + (center.y - c.center.y) * (center.y - c.center.y)) in
      if dist_to_coin <= radius + c.radius then some coin_index else later

  module _ (garbage : N) (state : FieldState N) (player : Player N) where
    -- The coin that a player in the simulation touches.
    abbrev pub coin_of : Player N → Option ℕ
    coin_of p = coin_at player.radius p.center 0 state.coins

    abbrev pub next : Acceleration N → Player N → Player N
    next a p = get_next_state garbage state a p

    -- The loop over the angles.
    unfoldable pub sweep : Courses N → Swept N
    unfolding coin_at
    sweep [] = moved []
    sweep ((a, p) ∷ courses) = elim (coin_of (next a p)) [
      | some coin ↦ reached a coin
      | none ↦ elim (sweep courses) [
        | reached b coin ↦ reached b coin
        | moved later ↦ moved ((a, next a p) ∷ later)
      ]
    ]

    -- The loop over the states: `n` of them are left.
    unfoldable pub search : ℕ → ℕ → Courses N → BestMoveToCoin N
    unfolding sweep
    search zero quant_number courses = record {
      best_time = d.negative one;
      best_acceleration = record { x = Double.zero; y = Double.zero };
      coin_id = none;
    }
    search (suc n) quant_number courses = elim (sweep courses) [
      | reached a coin ↦ record {
        best_time = state.time_delta * real quant_number;
        best_acceleration = a;
        coin_id = some coin;
      }
      | moved later ↦ search n (suc quant_number) later
    ]

    -- `GetBestMove` of the player who stands at the index that it is given.
    unfoldable pub get_best_move : BestMoveToCoin N
    unfolding search accelerations_from
    get_best_move = search 100 1 (map (λ a. (a, player)) player_accelerations)
