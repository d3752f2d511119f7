-- ===== src/Strategies.antt =====
-- src/strategies: how a client's strategy chooses its next acceleration. Each `GetTurn` is a function
-- of the strategy's own members, which it gives back; `none` is a read through `end()`.
pub mod Names
pub mod Drunk
pub mod Closest
pub mod Predictive
pub mod Factory
use angry_balls.Base.{
  ℕ, zero, suc, ◌+◌ as add, ◌%◌, ◌^◌, List, [], ◌∷◌, Bool, drop, Option, none, some, get_elem?,
  ◌==◌, if◌then◌else◌,
}
use angry_balls.Double.{Double, ◌-◌, ◌+◌, ◌/◌, ◌<◌, ◌>◌, real, one}
use angry_balls.Double
use angry_balls.Geometry.{Point, distance, normalize}
use angry_balls.Geometry
use angry_balls.Random.{Random}
use angry_balls.Units.{Player, Coin, FieldState, Acceleration}

module _ {N : Type 0} where
  -- `std::find_if` by the id.
  unfoldable pub find_player : ℕ → List (Player N) → Option (Player N)
  find_player player_id [] = none
  find_player player_id (p ∷ ps) =
      let rest = find_player player_id ps in if p.id == player_id then some p else rest

module _ {N : Type 0} ⦃d : Double N⦄ where
  -- `DoNothingStrategy::GetTurn`.
  abbrev pub do_nothing : Acceleration N
  do_nothing = record { x = Double.zero; y = Double.zero }

  -- `DrunkStrategy::GetTurn`: the cases have no `break`, so a case and those after it are carried
  -- out, each in place of the last.
  abbrev pub drunk_cases : List (Acceleration N)
  drunk_cases =
      record { x = d.negative one; y = Double.zero }
      ∷ record { x = Double.zero; y = one }
      ∷ record { x = one; y = Double.zero }
      ∷ record { x = Double.zero; y = d.negative one }
      ∷ []

  unfoldable pub carry_out : List (Acceleration N) → Acceleration N → Acceleration N
  carry_out [] a = a
  carry_out (b ∷ bs) a = carry_out bs b

  -- `turn_index` is a `size_t`; `garbage` is what the acceleration holds before it is assigned.
  unfoldable pub drunk_get_turn : Acceleration N → ℕ → Acceleration N × ℕ
  unfolding carry_out
  drunk_get_turn garbage turn_index =
      (carry_out (drop (turn_index % 4) drunk_cases) garbage, add turn_index 1 % 2 ^ 64)

  -- The loop of `MoveToClosestStrategy::GetTurn` over the coins from `index` on; `none` for the
  -- invalid index.
  unfoldable pub closest_from : Point N → ℕ → N → Option ℕ → List (Coin N) → Option ℕ
  closest_from center index dist_min closest [] = closest
  closest_from center index dist_min closest (c ∷ cs) =
      let dist = distance center c.center in
      let nearer = dist < dist_min in
      closest_from center (suc index) (if nearer then dist else dist_min)
        (if nearer then some index else closest) cs

  unfoldable pub closest_coin_index : Point N → List (Coin N) → Option ℕ
  unfolding closest_from
  closest_coin_index center coins = closest_from center 0 d.max none coins

  -- The unit vector from the one point to the other.
  abbrev pub direction : Point N → Point N → Acceleration N
  direction from to =
      let v : Point N = record { x = to.x - from.x; y = to.y - from.y } in
      record { x = v.x / Geometry.length v; y = v.y / Geometry.length v }

  -- `MoveToClosestStrategy::GetTurn`.
  unfoldable pub move_to_closest_get_turn : FieldState N → ℕ → Option (Acceleration N)
  unfolding find_player closest_coin_index
  move_to_closest_get_turn state player_id = elim (find_player player_id state.players) [
    | none ↦ none
    | some player ↦ elim (closest_coin_index player.center state.coins) [
      | none ↦ some do_nothing
      | some index ↦ elim (get_elem? state.coins index) [
        | none ↦ none
        | some coin ↦ some (direction player.center coin.center)
      ]
    ]
  ]

  module _ {R : Type 0} (random : Random N R) where
    -- `BuffaloStrategy::GetTurn`.
    unfoldable pub buffalo_get_turn : FieldState N → ℕ → R → Option (Acceleration N × R)
    unfolding find_player
    buffalo_get_turn state player_id engine = elim (find_player player_id state.players) [
      | none ↦ none
      | some player ↦
          let (x, later) = random.uniform Double.zero one engine in
          let (y, last) = random.uniform Double.zero one later in
          some (
            if Geometry.length player.velocity > d.micro
            then (normalize (record { x = player.velocity.x; y = player.velocity.y }), engine)
            else (normalize (record { x = x; y = y }), last))
    ]

  -- `ShiftFromZero`.
  abbrev pub shift_from_zero : N → N
  shift_from_zero variable =
      variable + (if variable < Double.zero then d.negative d.tenth else d.tenth)

-- The members of `RandomAccelerationStrategy`.
pub record RandomAcceleration (N R : Type 0) : Type 0 where
  pub time_until_change_of_acceleration : N
  pub previous_acceleration : Acceleration N
  pub generator : R

module _ {N R : Type 0} ⦃d : Double N⦄ (random : Random N R) where
  -- The constructor, with its engine.
  abbrev pub random_acceleration : R → RandomAcceleration N R
  random_acceleration engine = record {
    time_until_change_of_acceleration = Double.zero;
    previous_acceleration = record { x = Double.zero; y = Double.zero };
    generator = engine;
  }

  -- `RandomAccelerationStrategy::GetTurn`.
  unfoldable pub random_acceleration_get_turn :
      FieldState N → RandomAcceleration N R → Acceleration N × RandomAcceleration N R
  random_acceleration_get_turn state s =
      let time_left = s.time_until_change_of_acceleration - state.time_delta in
      let (x, later) = random.uniform (d.negative one) one s.generator in
      let (y, last) = random.uniform (d.negative one) one later in
      let fresh = normalize (record { x = shift_from_zero x; y = shift_from_zero y }) in
      if time_left > Double.zero
      then (s.previous_acceleration, record s { time_until_change_of_acceleration = time_left })
      else (
        fresh,
        record {
          time_until_change_of_acceleration = real 2000;
          previous_acceleration = fresh;
          generator = last;
        },
      )
