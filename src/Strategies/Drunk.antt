-- ===== src/Strategies/Drunk.antt =====
-- The turns of the drunk strategy.
use angry_balls.Base.{ℕ, zero, suc, ◌%◌, ◌<◌, drop, ◌≡◌, refl, arith}
use angry_balls.Double.{Double, one}
use angry_balls.Double
use angry_balls.Units.{Acceleration}
use angry_balls.Strategies.{drunk_cases, carry_out, drunk_get_turn}

module _ {N : Type 0} ⦃d : Double N⦄ where
  carry_out-drop :
      (garbage : Acceleration N) (k : ℕ)
      → k < 4
      → carry_out (drop k drunk_cases) garbage ≡ record { x = Double.zero; y = d.negative one }
  unfolding carry_out
  carry_out-drop garbage zero h = refl
  carry_out-drop garbage (suc zero) h = refl
  carry_out-drop garbage (suc (suc zero)) h = refl
  carry_out-drop garbage (suc (suc (suc zero))) h = refl
  carry_out-drop garbage (suc (suc (suc (suc k)))) h = absurd (omega arith)

  -- The drunk strategy never turns: whatever the number of the turn, it accelerates downwards, by
  -- (0, -1).
  pub drunk_get_turn_lem :
      (garbage : Acceleration N) (turn_index : ℕ)
      → (drunk_get_turn garbage turn_index).0 ≡ record { x = Double.zero; y = d.negative one }
  unfolding drunk_get_turn
  drunk_get_turn_lem garbage turn_index = carry_out-drop garbage (turn_index % 4) (omega arith)
