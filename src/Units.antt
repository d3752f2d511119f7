-- ===== src/Units.antt =====
-- include/ab/units.h: the data that the server, the clients and the emulator share. Integers keep
-- their C++ widths in the statements that need them; `N` is the type of doubles.
use angry_balls.Base.{ℕ, List}
use angry_balls.Geometry.{Point}

abbrev pub Velocity : Type 0 → Type 0
Velocity N = Point N

abbrev pub Acceleration : Type 0 → Type 0
Acceleration N = Point N

pub record Player (N : Type 0) : Type 0 where
  pub id : ℕ
  pub score : N
  pub center : Point N
  pub radius : N
  pub velocity : Velocity N

pub record Coin (N : Type 0) : Type 0 where
  pub center : Point N
  pub radius : N
  pub value : N

pub record FieldState (N : Type 0) : Type 0 where
  pub id : ℕ
  pub radius : N
  pub time_delta : N
  pub velocity_max : N
  pub players : List (Player N)
  pub coins : List (Coin N)

pub record Turn (N : Type 0) : Type 0 where
  pub player_id : ℕ
  pub state_id : ℕ
  pub acceleration : Acceleration N
