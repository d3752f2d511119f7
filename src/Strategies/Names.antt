-- ===== src/Strategies/Names.antt =====
-- src/strategies/string_conversion.cpp and factory.cpp: the names of the strategies.
use Prim.Native.String.{String}
use angry_balls.Base.{
  ℕ, zero, suc, ◌-◌, List, [], ◌∷◌, Option, none, some, get_elem?, Option-cases, inl, inr, ◌↔◌, ◌≡◌,
  refl, sym, ap, ◌∙◌, arith,
}
use angry_balls.Protocol.Names.{find_index, find_index_found}

pub data StrategyName : Type 0 where
  do_nothing move_to_closest predictive drunk buffalo random_acceleration : StrategyName

-- `GetAllStrategyNames`.
abbrev pub get_all_strategy_names : List StrategyName
get_all_strategy_names =
    do_nothing ∷ move_to_closest ∷ predictive ∷ drunk ∷ buffalo ∷ random_acceleration ∷ []

-- `GetAllStrategyNamesStr`.
abbrev pub get_all_strategy_names_str : List String
get_all_strategy_names_str =
    "DoNothingStrategy" ∷ "MoveToClosestStrategy" ∷ "PredictiveStrategy" ∷ "DrunkStrategy"
    ∷ "BuffaloStrategy" ∷ "RandomAccelerationStrategy" ∷ []

-- `static_cast<size_t>(name)`.
unfoldable strategy_index : StrategyName → ℕ
strategy_index do_nothing = 0
strategy_index move_to_closest = 1
strategy_index predictive = 2
strategy_index drunk = 3
strategy_index buffalo = 4
strategy_index random_acceleration = 5

-- `static_cast<StrategyName>(index)`, for an index below the count of the enumerators.
unfoldable strategy_at : ℕ → StrategyName
strategy_at i = elim (get_elem? get_all_strategy_names i) [
  | none ↦ random_acceleration
  | some n ↦ n
]

unfoldable pub strategy_to_string : StrategyName → String
unfolding strategy_index
strategy_to_string name = elim (get_elem? get_all_strategy_names_str (strategy_index name)) [
  | none ↦ ""
  | some s ↦ s
]

-- The loop is the one of the message types.
unfoldable pub strategy_from_string : String → Option StrategyName
unfolding find_index strategy_at
strategy_from_string s = elim (find_index s 0 get_all_strategy_names_str) [
  | none ↦ none
  | some i ↦ some (strategy_at i)
]

at_strategies :
    (i : ℕ) {s : String}
    → get_elem? get_all_strategy_names_str i ≡ some s
    → strategy_to_string (strategy_at i) ≡ s
unfolding strategy_to_string strategy_at strategy_index
at_strategies zero h = cc
at_strategies (suc zero) h = cc
at_strategies (suc (suc zero)) h = cc
at_strategies (suc (suc (suc zero))) h = cc
at_strategies (suc (suc (suc (suc zero)))) h = cc
at_strategies (suc (suc (suc (suc (suc zero))))) h = cc
at_strategies (suc (suc (suc (suc (suc (suc i)))))) h = cc

strategy_from_string-strategy_to_string :
    (n : StrategyName) → strategy_from_string (strategy_to_string n) ≡ some n
unfolding strategy_from_string strategy_to_string find_index strategy_at strategy_index
strategy_from_string-strategy_to_string do_nothing = refl
strategy_from_string-strategy_to_string move_to_closest = refl
strategy_from_string-strategy_to_string predictive = refl
strategy_from_string-strategy_to_string drunk = refl
strategy_from_string-strategy_to_string buffalo = refl
strategy_from_string-strategy_to_string random_acceleration = refl

-- A string names a strategy just when it is that strategy's name.
pub strategy_from_string_iff :
    (s : String) (n : StrategyName) → (strategy_from_string s ≡ some n) ↔ (s ≡ strategy_to_string n)
unfolding strategy_from_string
strategy_from_string_iff s n = (only, λ e. rw e (strategy_from_string-strategy_to_string n))
  where
    only : strategy_from_string s ≡ some n → s ≡ strategy_to_string n
    only h = elim (Option-cases (find_index s 0 get_all_strategy_names_str)) [
      | inl missing ↦ ground arith
      | inr (i, found) ↦
          let is_name : strategy_at i ≡ n = ground arith in
          let (_, at) = find_index_found s 0 get_all_strategy_names_str found in
          let start : i - 0 ≡ i = omega arith in
          sym (at_strategies i (rw (start) at (at))) ∙ ap strategy_to_string is_name
    ]
