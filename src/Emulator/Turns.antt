-- ===== src/Emulator/Turns.antt =====
-- lib/emulator/helpers.cpp, `GetAccelerations` and `ApplyAcceleration`: the players' turns.
use mathlib.Core.Option
use angry_balls.Base.{ℕ, List, [], ◌∷◌, Option, none, some, ◌==◌, if◌then◌else◌}
use angry_balls.Double.{Double, ◌+◌, ◌*◌, ◌>◌}
use angry_balls.Geometry.{Point, normalize}
use angry_balls.Geometry
use angry_balls.Units.{Player, Turn, Acceleration}

infixl 5 ◌>>=◌
abbrev ◌>>=◌ {ℓ κ} : {A : Type ℓ} {B : Type κ} → Option A → (A → Option B) → Option B
none >>= f = none
some a >>= f = f a

module _ {N : Type 0} where
  -- `std::find_if` over the turns; `none` is `turns.end()`, which the code reads through.
  unfoldable pub find_turn : ℕ → List (Turn N) → Option (Turn N)
  find_turn id [] = none
  find_turn id (t ∷ ts) = if t.player_id == id then some t else find_turn id ts

  unfoldable pub get_accelerations :
      List (Player N) → List (Turn N) → Option (List (Acceleration N))
  get_accelerations [] turns = some []
  get_accelerations (p ∷ ps) turns = do
    turn ← find_turn p.id turns
    rest ← get_accelerations ps turns
    some (turn.acceleration ∷ rest)

module _ {N : Type 0} ⦃d : Double N⦄ where
  -- The new velocity of one player, brought back to the maximum if it is longer.
  unfoldable pub accelerate : N → N → Acceleration N → Player N → Player N
  accelerate time_delta velocity_max a p =
      let v : Point N = record {
        x = p.velocity.x + a.x * time_delta;
        y = p.velocity.y + a.y * time_delta;
      } in
      let unit = normalize v in
      record p {
        velocity =
            if Geometry.length v > velocity_max
            then record { x = unit.x * velocity_max; y = unit.y * velocity_max }
            else v;
      }

  unfoldable pub accelerate_all : N → N → List (Acceleration N) → List (Player N) → List (Player N)
  accelerate_all time_delta velocity_max [] ps = ps
  accelerate_all time_delta velocity_max (a ∷ as') [] = []
  accelerate_all time_delta velocity_max (a ∷ as') (p ∷ ps) =
      accelerate time_delta velocity_max a p ∷ accelerate_all time_delta velocity_max as' ps

  unfoldable pub apply_acceleration :
      List (Turn N) → N → N → List (Player N) → Option (List (Player N))
  apply_acceleration turns time_delta velocity_max players =
      Option.map (λ accelerations. accelerate_all time_delta velocity_max accelerations players)
        (get_accelerations players turns)
