-- ===== src/Strategies/Predictive/Simulation.antt =====
-- `GetNextState` of src/strategies/predictive_strategy.cpp: a player one state later.
use angry_balls.Base.{ℕ, zero, suc, Bool, if◌then◌else◌}
use angry_balls.Double.{Double, ◌+◌, ◌-◌, ◌*◌, ◌/◌, ◌<=◌, ◌>◌, one, two}
use angry_balls.Double
use angry_balls.Geometry.{Point}
use angry_balls.Geometry
use angry_balls.Units.{Player, FieldState, Acceleration, Velocity}

module _ {N : Type 0} ⦃d : Double N⦄ where
  -- `kPi`.
  abbrev pub pi : N
  pi = d.acos (d.negative one)

  abbrev inside : FieldState N → Player N → Point N → Bool
  inside state p center = Geometry.length center <= state.radius - p.radius

  -- The centre after the part `mid` of the time.
  abbrev center_mid : FieldState N → Point N → Velocity N → N → Point N
  center_mid state center v mid = record {
    x = center.x + v.x * mid * state.time_delta;
    y = center.y + v.y * mid * state.time_delta;
  }

  -- The loop over `left_bound` and `right_bound`.
  unfoldable pub bisect : ℕ → FieldState N → Player N → Velocity N → N → N → N
  bisect zero state p v left right = left
  bisect (suc n) state p v left right =
      let mid = (left + right) / two in
      let here = inside state p (center_mid state p.center v mid) in
      bisect n state p v (if here then mid else left) (if here then right else mid)

  -- The velocity after the acceleration, no longer than `velocity_max`.
  unfoldable pub velocity_now : FieldState N → Player N → Acceleration N → Velocity N
  velocity_now state p a =
      let vx = p.velocity.x + a.x * state.time_delta in
      let vy = p.velocity.y + a.y * state.time_delta in
      let squared = vx * vx + vy * vy in
      if squared > state.velocity_max * state.velocity_max
      then record {
        x = vx / d.sqrt squared * state.velocity_max;
        y = vy / d.sqrt squared * state.velocity_max;
      }
      else record { x = vx; y = vy }

  -- The centre and the velocity after the player has bounced off the edge.
  unfoldable pub bounce : FieldState N → Player N → Velocity N → Point N × Velocity N
  unfolding bisect
  bounce state p v =
      let left = bisect 30 state p v Double.zero one in
      let middle = center_mid state p.center v left in
      let angle =
        d.asin ((v.x * middle.y - v.y * middle.x) / (Geometry.length v * Geometry.length middle)) in
      let rotate = pi + two * angle in
      let next_x = v.x * d.cos rotate - v.y * d.sin rotate in
      let next_y = v.x * d.sin rotate + v.y * d.cos rotate in
      (
        record {
          x = middle.x + next_x * (one - left) * state.time_delta;
          y = middle.y + next_y * (one - left) * state.time_delta;
        },
        record { x = next_x; y = next_y },
      )

  -- The score is not assigned.
  unfoldable pub get_next_state : N → FieldState N → Acceleration N → Player N → Player N
  unfolding velocity_now bounce
  get_next_state garbage state a p =
      let v = velocity_now state p a in
      let center : Point N = record {
        x = p.center.x + v.x * state.time_delta;
        y = p.center.y + v.y * state.time_delta;
      } in
      let (bounced, turned) = bounce state p v in
      let here = inside state p center in
      record {
        id = p.id;
        score = garbage;
        center = if here then center else bounced;
        radius = p.radius;
        velocity = if here then v else turned;
      }
