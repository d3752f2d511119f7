-- ===== src/Emulator/Physics.antt =====
-- lib/emulator/default_emulator.cpp: movement and collisions. A loop over the vector of players is a
-- recursion on the list; the loop over pairs keeps the player of the outer index while the inner
-- index runs over the ones behind it.
use angry_balls.Base.{ℕ, zero, suc, List, [], ◌∷◌, Bool, map, if◌then◌else◌}
use angry_balls.Base
use angry_balls.Double.{Double, ◌+◌, ◌-◌, ◌*◌, ◌/◌, ◌<◌, ◌<=◌, ◌>◌, one, two}
use angry_balls.Double
use angry_balls.Geometry.{Point, distance, normalize}
use angry_balls.Geometry
use angry_balls.Units.{Player}

module _ {N : Type 0} ⦃d : Double N⦄ where
  unfoldable pub move_player : N → Player N → Player N
  move_player time_delta p = record p {
    center = record {
      x = p.center.x + p.velocity.x * time_delta;
      y = p.center.y + p.velocity.y * time_delta;
    };
  }

  unfoldable pub move_players : N → List (Player N) → List (Player N)
  move_players time_delta = map (move_player time_delta)

  -- `Collide` of two players.
  unfoldable pub collide : Player N → Player N → Bool
  collide l r = distance l.center r.center <= l.radius + r.radius

  -- The unit vector along which two players collide, and their distance: two players whose centres
  -- all but coincide are pushed along the x axis.
  unfoldable pub collision_axis : Player N → Player N → Point N × N
  collision_axis l r =
      let c : Point N = record { x = l.center.x - r.center.x; y = l.center.y - r.center.y } in
      let apart = Geometry.length c in
      if apart <= d.micro then (record { x = one; y = Double.zero }, one) else (c, apart)

  -- The exchange of the velocities' components along the unit vector `c`.
  unfoldable pub exchange : Point N → Player N → Player N → Player N × Player N
  exchange c l r =
      let li = l.velocity.x * c.x + l.velocity.y * c.y in
      let ri = r.velocity.x * c.x + r.velocity.y * c.y in
      (
        record l {
          velocity = record {
            x = l.velocity.x + c.x * (ri - li);
            y = l.velocity.y + c.y * (ri - li);
          };
        },
        record r {
          velocity = record {
            x = r.velocity.x - c.x * (ri - li);
            y = r.velocity.y - c.y * (ri - li);
          };
        },
      )

  -- `ResolveCollision` of two players.
  unfoldable pub resolve_collision : Player N → Player N → Player N × Player N
  resolve_collision l r =
      let (c, apart) = collision_axis l r in
      if apart > l.radius + r.radius
      then (l, r)
      else exchange (record { x = c.x / apart; y = c.y / apart }) l r

  unfoldable pub collide_pair : Player N → Player N → Player N × Player N
  collide_pair l r = if collide l r then resolve_collision l r else (l, r)

  -- The inner loop: the player of the outer index against each of those behind it.
  unfoldable pub collide_with : Player N → List (Player N) → Player N × List (Player N)
  collide_with p [] = (p, [])
  collide_with p (q ∷ qs) =
      let (p', q') = collide_pair p q in let (last, rest) = collide_with p' qs in (last, q' ∷ rest)

  -- The outer loop, with the number of rounds left.
  unfoldable pub collide_from : ℕ → List (Player N) → List (Player N)
  collide_from zero ps = ps
  collide_from (suc left) [] = []
  collide_from (suc left) (p ∷ ps) =
      let (last, rest) = collide_with p ps in last ∷ collide_from left rest

  unfoldable pub handle_ball_to_ball_collisions : List (Player N) → List (Player N)
  handle_ball_to_ball_collisions ps = collide_from (Base.length ps) ps

  -- `Collide` with the border.
  unfoldable pub collide_border : N → Player N → Bool
  collide_border field_radius p = Geometry.length p.center + p.radius > field_radius

  -- `ResolveCollision` with the border: only a player that moves outwards is turned back.
  unfoldable pub resolve_border : Player N → Player N
  resolve_border p =
      let n = normalize (record { x = d.negative p.center.x; y = d.negative p.center.y }) in
      let dot_product = p.velocity.x * n.x + p.velocity.y * n.y in
      if dot_product < Double.zero
      then record p {
        velocity = record {
          x = p.velocity.x - two * dot_product * n.x;
          y = p.velocity.y - two * dot_product * n.y;
        };
      }
      else p

  unfoldable pub bounce : N → Player N → Player N
  bounce field_radius p = if collide_border field_radius p then resolve_border p else p

  unfoldable pub handle_ball_to_border_collisions : N → List (Player N) → List (Player N)
  handle_ball_to_border_collisions field_radius = map (bounce field_radius)
