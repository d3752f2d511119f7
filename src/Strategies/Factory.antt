-- ===== src/Strategies/Factory.antt =====
-- src/strategies/factory.cpp: a strategy of each name, with its members; and its `GetTurn`.
use angry_balls.Base.{ℕ, Option, none, some}
use angry_balls.Double.{Double}
use angry_balls.Random.{Random}
use angry_balls.Units.{FieldState, Acceleration}
use angry_balls.Strategies.{
  RandomAcceleration, do_nothing, move_to_closest_get_turn, drunk_get_turn, buffalo_get_turn,
  random_acceleration, random_acceleration_get_turn,
}
use angry_balls.Strategies.Names.{StrategyName}
use angry_balls.Strategies.Names
use angry_balls.Strategies.Predictive.{predictive_get_turn}

-- The classes derived from `StrategyInterface`, with their members.
pub data Strategy (N R : Type 0) : Type 0 where
  do_nothing_strategy move_to_closest_strategy predictive_strategy : Strategy N R
  drunk_strategy : ℕ → Strategy N R
  buffalo_strategy : R → Strategy N R
  random_acceleration_strategy : RandomAcceleration N R → Strategy N R

module _ {N R : Type 0} ⦃d : Double N⦄ where
  -- `StrategiesFactory::Create`; the engine is the one that the constructor seeds.
  unfoldable pub create : Random N R → R → StrategyName → Strategy N R
  create random engine Names.do_nothing = do_nothing_strategy
  create random engine Names.move_to_closest = move_to_closest_strategy
  create random engine Names.predictive = predictive_strategy
  create random engine Names.drunk = drunk_strategy 0
  create random engine Names.buffalo = buffalo_strategy engine
  create random engine Names.random_acceleration =
      random_acceleration_strategy (random_acceleration random engine)

  -- The virtual `GetTurn`; `garbage` and `score` are what stands in an acceleration, or a score, that is
  -- not assigned.
  unfoldable pub get_turn :
      Random N R
      → Acceleration N
      → N
      → FieldState N
      → ℕ
      → Strategy N R
      → Option (Acceleration N × Strategy N R)
  unfolding drunk_get_turn
  get_turn random garbage score state player_id do_nothing_strategy =
      some (do_nothing, do_nothing_strategy)
  get_turn random garbage score state player_id move_to_closest_strategy =
      elim (move_to_closest_get_turn state player_id) [
        | none ↦ none
        | some a ↦ some (a, move_to_closest_strategy)
      ]
  get_turn random garbage score state player_id predictive_strategy =
      elim (predictive_get_turn score state player_id) [
        | none ↦ none
        | some a ↦ some (a, predictive_strategy)
      ]
  get_turn random garbage score state player_id (drunk_strategy turn_index) =
      let (a, next) = drunk_get_turn garbage turn_index in some (a, drunk_strategy next)
  get_turn random garbage score state player_id (buffalo_strategy engine) =
      elim (buffalo_get_turn random state player_id engine) [
        | none ↦ none
        | some (a, later) ↦ some (a, buffalo_strategy later)
      ]
  get_turn random garbage score state player_id (random_acceleration_strategy members) =
      let (a, later) = random_acceleration_get_turn random state members in
      some (a, random_acceleration_strategy later)
