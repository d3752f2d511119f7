-- ===== src/Geometry.antt =====
-- include/util/geometry.h and lib/util/geometry.cpp.
use angry_balls.Base.{Bool, if◌then◌else◌}
use angry_balls.Double.{Double, ◌+◌, ◌-◌, ◌*◌, ◌/◌, ◌<◌, ◌<=◌, ◌>◌, zero}

pub record Point (N : Type 0) : Type 0 where
  pub x : N
  pub y : N

module _ {N : Type 0} ⦃d : Double N⦄ where
  -- `Length`.
  unfoldable pub length : Point N → N
  length p = d.sqrt (p.x * p.x + p.y * p.y)

  unfoldable pub distance : Point N → Point N → N
  distance a b = d.sqrt ((a.x - b.x) * (a.x - b.x) + (a.y - b.y) * (a.y - b.y))

  -- The length is taken once, before either coordinate is divided.
  unfoldable pub normalize : Point N → Point N
  normalize p = let l = length p in record { x = p.x / l; y = p.y / l }

  unfoldable pub intersect : Point N → N → Point N → N → Bool
  intersect a r b s = distance a b <= r + s

  -- `Less`, `LessEqual`, `Greater`, `GreaterEqual` and `Equal`, up to an epsilon.
  unfoldable pub less : N → N → N → Bool
  less a b epsilon = a < b - epsilon

  unfoldable pub less_equal : N → N → N → Bool
  less_equal a b epsilon = a < b + epsilon

  unfoldable pub greater : N → N → N → Bool
  greater a b epsilon = a > b + epsilon

  unfoldable pub greater_equal : N → N → N → Bool
  greater_equal a b epsilon = a > b - epsilon

  unfoldable pub equal : N → N → N → Bool
  equal a b epsilon = if a - b < zero then b - a < epsilon else a - b < epsilon
