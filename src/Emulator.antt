-- ===== src/Emulator.antt =====
-- lib/emulator/default_emulator.cpp and include/emulator/emulators.h: one turn of the game.
pub mod Coins
pub mod Turns
pub mod Physics
pub mod Frame
pub mod Aligned
pub mod Momentum
use angry_balls.Base.{ℕ, zero, suc, List, [], length, Option, none, some, ◌==◌, if◌then◌else◌, ltb}
use angry_balls.Double.{Double, ◌/◌, real}
use angry_balls.Units.{Player, Coin, FieldState, Turn}
use Coins.{divide_coins}
use Turns.{apply_acceleration}
use Physics.{move_players, handle_ball_to_ball_collisions, handle_ball_to_border_collisions}

-- What a call ends in: a failed `assert`, or a read past the end of `turns`.
pub data Fault : Type 0 where
  assertion_failed past_the_end : Fault

pub data Emulated (N : Type 0) : Type 0 where
  done : FieldState N → Emulated N
  fault : Fault → Emulated N

module _ {N : Type 0} ⦃d : Double N⦄ where
  -- The body of the loop over the steps.
  unfoldable pub emulate_step : N → FieldState N → FieldState N
  emulate_step step_time_delta state =
      let moved = move_players step_time_delta state.players in
      let bounced = handle_ball_to_ball_collisions moved in
      let kept = handle_ball_to_border_collisions state.radius bounced in
      let (players, coins) = divide_coins kept state.coins in
      record state { players = players; coins = coins }

  unfoldable pub emulate_steps : ℕ → N → FieldState N → FieldState N
  emulate_steps zero step_time_delta state = state
  emulate_steps (suc left) step_time_delta state =
      emulate_steps left step_time_delta (emulate_step step_time_delta state)

  -- `DefaultEmulator::Emulate`.
  unfoldable pub emulate : ℕ → List (Turn N) → FieldState N → Emulated N
  emulate steps_number turns state =
      if length state.players == length turns
      then (if ltb 0 steps_number
          then elim (apply_acceleration turns state.time_delta state.velocity_max state.players) [
            | none ↦ fault past_the_end
            | some players ↦
                let in_game_time_delta = state.time_delta / real 100 in
                let step_time_delta = in_game_time_delta / real steps_number in
                done
                  (emulate_steps steps_number step_time_delta (record state { players = players }))
          ]
          else fault assertion_failed)
      else fault assertion_failed

  -- `DoNothingEmulator::Emulate`.
  unfoldable pub emulate_nothing : List (Turn N) → FieldState N → FieldState N
  emulate_nothing turns state = state

-- `DefaultEmulator::SetStepsNumber`: `none` is a failed assertion.
unfoldable pub set_steps_number : ℕ → Option ℕ
set_steps_number steps_number = if ltb 0 steps_number then some steps_number else none

abbrev pub default_steps_number : ℕ
default_steps_number = 100
