-- ===== src/Strategies/Predictive/Straight.antt =====
-- `MoveToClosestCoin` of src/strategies/predictive_strategy.cpp.
use angry_balls.Base.{ℕ, zero, suc, Option, none, some, get_elem?, if◌then◌else◌}
use angry_balls.Double.{Double, ◌+◌, ◌-◌, ◌*◌, ◌/◌, ◌<◌, real, one, two}
use angry_balls.Double
use angry_balls.Geometry.{Point, distance}
use angry_balls.Geometry
use angry_balls.Units.{Player, Coin, FieldState, Acceleration}
use angry_balls.Strategies.{closest_from}

module _ {N : Type 0} ⦃d : Double N⦄ where
  -- `kBiggestDistance`.
  abbrev biggest_distance : N
  biggest_distance = real 100_000_000

  -- The point of the segment at the part `t`.
  abbrev segment_point : Point N → Point N → N → Point N
  segment_point start end t = record {
    x = start.x + t * (end.x - start.x);
    y = start.y + t * (end.y - start.y);
  }

  -- The loop over `left_bound` and `right_bound`.
  unfoldable pub trisect : ℕ → Point N → Point N → Point N → N → N → N
  trisect zero start end next_point left right = left
  trisect (suc n) start end next_point left right =
      let mid_left = (two * left + right) / real 3 in
      let mid_right = (left + two * right) / real 3 in
      let nearer =
        distance next_point (segment_point start end mid_left)
        < distance next_point (segment_point start end mid_right) in
      trisect n start end next_point (if nearer then left else mid_left)
        (if nearer then mid_right else right)

  -- From the choice of the coin on.
  unfoldable pub steer : FieldState N → Player N → Coin N → Acceleration N
  unfolding trisect
  steer state player coin =
      let center = player.center in
      let best_direction : Point N = record {
        x = coin.center.x - center.x;
        y = coin.center.y - center.y;
      } in
      let best_distance = Geometry.length best_direction in
      let unit : Point N = record {
        x = best_direction.x / best_distance;
        y = best_direction.y / best_distance;
      } in
      let end : Point N = record {
        x = center.x + biggest_distance * unit.x;
        y = center.y + biggest_distance * unit.y;
      } in
      let next_point : Point N = record {
        x = center.x + state.time_delta * player.velocity.x;
        y = center.y + state.time_delta * player.velocity.y;
      } in
      let projection =
        segment_point center end (trisect 100 center end next_point Double.zero one) in
      let first : Point N = record {
        x = projection.x - next_point.x;
        y = projection.y - next_point.y;
      } in
      let further : Point N = record { x = first.x + unit.x; y = first.y + unit.y } in
      let shift : Point N = if Geometry.length first < one then further else first in
      record { x = shift.x / Geometry.length shift; y = shift.y / Geometry.length shift }

  -- The loop over the coins is that of `MoveToClosestStrategy`, from another distance on; `none` is a read
  -- past the end of the players.
  unfoldable pub move_to_closest_coin : FieldState N → ℕ → Option (Acceleration N)
  unfolding steer
  move_to_closest_coin state player_id = elim (get_elem? state.players player_id) [
    | none ↦ none
    | some player ↦ elim (closest_from player.center 0 biggest_distance none state.coins) [
      | none ↦ some (record { x = one; y = Double.zero })
      | some index ↦ elim (get_elem? state.coins index) [
        | none ↦ none
        | some coin ↦ some (steer state player coin)
      ]
    ]
  ]
