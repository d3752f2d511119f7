-- ===== src/Strategies/Predictive.antt =====
-- `PredictiveStrategy` of src/strategies/predictive_strategy.cpp. Simulation is `GetNextState`, Search is
-- `GetBestMove` and Straight is `MoveToClosestCoin`.
pub mod Simulation
pub mod Search
pub mod Straight
pub mod First
use angry_balls.Base.{
  ℕ, List, [], ◌∷◌, Bool, false, ◌&&◌, ◌||◌, Option, none, some, map, get_elem?, ◌==◌,
  if◌then◌else◌,
}
use angry_balls.Double.{Double, ◌<◌}
use angry_balls.Units.{FieldState, Acceleration}
use angry_balls.Strategies.Predictive.Search.{BestMoveToCoin, get_best_move}
use angry_balls.Strategies.Predictive.Straight.{move_to_closest_coin}

module _ {N : Type 0} ⦃d : Double N⦄ where
  -- The second loop of `GetTurn`: another player comes to the coin `aim` before `best_time`.
  unfoldable pub is_outrun : ℕ → N → List (BestMoveToCoin N) → Bool
  is_outrun aim best_time [] = false
  is_outrun aim best_time (m ∷ ms) =
      let same : Bool = elim m.coin_id [ none ↦ false | some coin ↦ coin == aim ] in
      (same && m.best_time < best_time) || is_outrun aim best_time ms

  -- `GetTurn`; `none` is a read past the end of the players. `garbage` is the score of the players that
  -- the simulation makes.
  unfoldable pub predictive_get_turn : N → FieldState N → ℕ → Option (Acceleration N)
  unfolding is_outrun
  predictive_get_turn garbage state player_id =
      let best_moves = map (λ p. get_best_move garbage state p) state.players in
      elim (get_elem? best_moves player_id) [
        | none ↦ none
        | some own ↦ elim own.coin_id [
          | none ↦ move_to_closest_coin state player_id
          | some aim ↦
              if is_outrun aim own.best_time best_moves
              then move_to_closest_coin state player_id
              else some own.best_acceleration
        ]
      ]
