-- ===== src/Examples/Threads.antt =====
-- The server of the game is started, a player comes, the game begins, and comes to its end.
use Prim.Native.String.{String}
use angry_balls.Base.{ℕ, some, List, [], ◌∷◌, if◌then◌else◌, sym, ◌∙◌, ◌≡◌, ◌≢◌, refl, arith}
use angry_balls.Base.Int.{ℤ, pos, ◌-ℤ◌, ◌+ℤ◌, ◌*ℤ◌}
use angry_balls.Double.Fixed.{fixed, root, root_from, fixed_product, fixed_quotient}
use angry_balls.Generators.{get_default_player, search, overlaps, player_at, draw_player}
use angry_balls.Geometry.{distance}
use angry_balls.Server.GameState.{aborted, out_of_range, place_player, add_player, init}
use angry_balls.Server.Game.Joining.{server_main-add_player}
use angry_balls.Server.GameState.Interface.{Engines, default_player, default_generators}
use angry_balls.Server.GameState.Run.{waiting, counting, start_of, player_comes, begin}
use angry_balls.Server.Game.Threads.{
  Threads, testing, placing, left, threads, game_server, message_comes, manager_runs, goes_on,
  batch_comes, batch_ends, Arrives, at_start, then_turn,
}
use angry_balls.Server.Config.{parse_game_config_options, check}
use angry_balls.Server.Game.Main.{server_main, IsPlayed, server_main-left, server_main-IsPlayed}
use text.Mathlib.Text.{◌==◌ as str_eq}
use angry_balls.Double.{real, one}
use angry_balls.Examples.Data.{counting_random, engines, config}
use angry_balls.Examples.Game.{gen}

abbrev atoi : String → ℤ
atoi text =
    if str_eq text "1"
    then pos 1
    else if str_eq text "2"
    then pos 2
    else if str_eq text "3"
    then pos 3
    else if str_eq text "100"
    then pos 100
    else pos 8000

abbrev atof : String → ℤ
atof text =
    if str_eq text "0.5"
    then fixed.half
    else if str_eq text "1"
    then one
    else if str_eq text "5"
    then real 5
    else real 50

abbrev arguments : List String
arguments =
    "game_server" ∷ "--min-players-count" ∷ "1" ∷ "--max-players-count" ∷ "2" ∷ "--max-states-count"
    ∷ "3" ∷ "--time-delta" ∷ "100" ∷ "--max-velocity" ∷ "5" ∷ "--coin-probability" ∷ "0.5"
    ∷ "--player-radius" ∷ "1" ∷ "--field-radius" ∷ "50" ∷ "--coin-radius" ∷ "1" ∷ "--port" ∷ "8000"
    ∷ []

abbrev at_first : Threads ℤ (Engines ℕ)
at_first = threads (start_of (game_server {C = ℕ} config engines 0).manager)

main_starts : server_main atoi atof counting_random 3 0 0 4 0 arguments ≡ some at_first
unfolding server_main parse_game_config_options check fixed fixed_product ◌-ℤ◌ ◌+ℤ◌ ◌*ℤ◌
main_starts = refl

-- A player has come, and the game has begun.
begun :
    (t : Threads ℤ (Engines ℕ)) × (Arrives gen at_first t
      × ((t.game.phase ≡ counting) × (t.loop ≡ testing)))
unfolding default_generators default_player get_default_player search overlaps player_at draw_player
    distance fixed root root_from fixed_product fixed_quotient ◌-ℤ◌ ◌+ℤ◌ ◌*ℤ◌ add_player
    place_player init game_server
begun = (
  _,
  (
    then_turn
        (then_turn
          (then_turn (then_turn (then_turn at_start goes_on) batch_comes)
            (message_comes (player_comes refl) refl))
          batch_ends)
        (manager_runs (begin (omega arith)) (λ e. cc) (λ e. cc)),
    (refl, refl),
  ),
)

server_main-left_example : (u : Threads ℤ (Engines ℕ)) × (Arrives gen at_first u × (u.loop ≡ left))
server_main-left_example =
    server_main-left atoi atof counting_random 3 0 0 4 0 arguments main_starts ((begun.1).0)
      (λ e. let off : counting ≡ waiting = sym (((begun.1).1).0) ∙ e in cc)
      (λ e. let off : testing ≡ placing = sym (((begun.1).1).1) ∙ e in cc)

-- The end to which the game can come.
ended : (u : Threads ℤ (Engines ℕ)) × (Arrives gen at_first u × (u.loop ≡ left))
ended =
    server_main-left atoi atof counting_random 3 0 0 4 0 arguments main_starts ((begun.1).0)
      (λ e. let off : counting ≡ waiting = sym (((begun.1).1).0) ∙ e in cc)
      (λ e. let off : testing ≡ placing = sym (((begun.1).1).1) ∙ e in cc)

server_main-IsPlayed_example : IsPlayed atoi atof counting_random 3 arguments (ended.0)
server_main-IsPlayed_example =
    server_main-IsPlayed atoi atof counting_random 3 0 0 4 0 arguments main_starts ((ended.1).0)
      ((ended.1).1)

server_main-add_player_example :
    let outcome = add_player gen ((begun.0).game).manager in
    (outcome ≢ aborted) × (outcome ≢ out_of_range)
server_main-add_player_example =
    server_main-add_player atoi atof counting_random 3 0 0 4 0 arguments main_starts ((begun.1).0)
