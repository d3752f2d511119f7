-- ===== src/Examples/Client.antt =====
-- A game of one state with a drunk client, and a message of three bytes that reaches him in two parts.
use mathlib.Core.List.{flatten}
use Prim.Native.String.{String}
use text.Mathlib.Text.{◌==◌ as str_eq}
use angry_balls.Base.{
  ℕ, ◌+◌, ◌%◌, ◌^◌, List, [], ◌∷◌, ◌++◌, map, length, true, false, Option, none, some, ◌≡◌, refl,
  arith, if◌then◌else◌,
}
use angry_balls.Base.Int.{ℤ}
use angry_balls.Bytes.{Bytes}
use angry_balls.Double.Fixed.{fixed}
use angry_balls.Units.{FieldState, Acceleration}
use angry_balls.Protocol.{
  Message, client_subscribe_request_message, client_subscribe_result_message,
  viewer_subscribe_result_message, field_state_message, turn_message, finish_message,
}
use angry_balls.Protocol.Build.{build, build_json_message}
use angry_balls.Protocol.Json.{Json, IsJson, found, missing, misuse}
use angry_balls.Protocol.Names.{to_string, find_index}
use angry_balls.Strategies.{do_nothing, drunk_get_turn}
use angry_balls.Strategies.Factory.{Strategy, drunk_strategy, create, get_turn}
use angry_balls.Double.{zero, one}
use angry_balls.Client.Io.{sent, received, send_returns, recv_returns, send_all, recv_all}
use angry_balls.Client.Io.Messages.{recv_all-send_all}
use angry_balls.Client.Options.{Options, parse_options, parse_from, set_option}
use angry_balls.Client.Options.Assigned.{is_assigned, parse_options-is_assigned}
use angry_balls.Strategies.Names.{drunk, strategy_from_string}
use angry_balls.Client.Gamer.{finished, connects, gamer_run}
use angry_balls.Client.Gamer.Game.{round, no_states, state_then, gamer_run-Chooses}
use angry_balls.Examples.Data.{field, counting_random}
use angry_balls.Examples.Messages.{Value, text_value, library, library-IsJson}

abbrev header : Bytes
header = 3 ∷ 0 ∷ 0 ∷ 0 ∷ []

recv_all-send_all_example :
    (header : Bytes) × (send_all (1 ∷ 2 ∷ 3 ∷ []) (map sent (5 ∷ 2 ∷ []))
      ≡ send_returns ((4 + 3) % 2 ^ 32) (header ++ (1 ∷ 2 ∷ 3 ∷ [])))
    × (length header ≡ 4)
    × (recv_all
          (9 ∷ 9 ∷ 9 ∷ 9 ∷ [])
          []
          (received header ∷ (map received ((1 ∷ []) ∷ []) ++ received (2 ∷ 3 ∷ 7 ∷ []) ∷ []))
        ≡ recv_returns ((3 + 1) % 2 ^ 32) ([] ++ ((1 ∷ 2 ∷ 3 ∷ []) ++ (7 ∷ []))) [])
unfolding flatten
recv_all-send_all_example =
    recv_all-send_all (1 ∷ 2 ∷ 3 ∷ []) (9 ∷ 9 ∷ 9 ∷ 9 ∷ []) [] (5 ∷ 2 ∷ []) ((1 ∷ []) ∷ [])
      (2 ∷ 3 ∷ 7 ∷ []) (7 ∷ []) [] refl (omega arith) (omega arith, (omega arith, tt)) refl
      (omega arith) refl

-- A library of which four values have texts, told apart by their types.
abbrev pub sample : Message ℤ → Value
sample m = build (library (text_value "")) m

abbrev pub write_of : Value → String
write_of v = elim ((library (text_value "")).get v "type") [
  | found x ↦ elim ((library (text_value "")).as_string x) [ none ↦ "" | some s ↦ s ]
  | missing ↦ ""
  | misuse ↦ ""
]

abbrev pub parse_of : String → Option Value
parse_of s =
    if str_eq s "STATE"
    then some (sample (field_state_message field))
    else if str_eq s "FINISH"
    then some (sample finish_message)
    else if str_eq s "CLI_SUB_RESULT"
    then some (sample (client_subscribe_result_message true 1))
    else if str_eq s "VIEW_SUB_RESULT"
    then some (sample (viewer_subscribe_result_message true 1))
    else none

abbrev pub game_library : Json ℤ Value
game_library = record (library (text_value "")) { write = write_of; parse = parse_of }

pub game_library-IsJson : IsJson game_library
game_library-IsJson =
    let laws = library-IsJson (text_value "") in
    record {
      get-assigned = laws.get-assigned;
      elements-appended = laws.elements-appended;
      is_text-text = laws.is_text-text;
      as_string-text = laws.as_string-text;
      as_uint-uint = laws.as_uint-uint;
      as_double-real = laws.as_double-real;
    }

-- The drunk strategy, as the factory makes it.
abbrev plays : FieldState ℤ → ℕ → Strategy ℤ ℕ → Option (Acceleration ℤ × Strategy ℤ ℕ)
plays = get_turn counting_random do_nothing zero

abbrev downwards : Acceleration ℤ
downwards = record { x = zero; y = fixed.negative one }

gamer_run-Chooses_example :
    gamer_run game_library plays
      (false ∷ true ∷ [])
      (round game_library plays (client_subscribe_result_message true 1))
      (map (λ st. round game_library plays (field_state_message st)) (field ∷ [])
        ++ round game_library plays finish_message ∷ [])
      (create counting_random 0 drunk)
    ≡ record {
      sent =
          build_json_message game_library client_subscribe_request_message
          ∷ map
              (λ t. build_json_message game_library (turn_message t))
              (record { player_id = 1; state_id = 3 % 2 ^ 32; acceleration = downwards } ∷ []);
      ended = finished;
      strategy = drunk_strategy 1;
    }
unfolding build_json_message build connects to_string create get_turn drunk_get_turn
gamer_run-Chooses_example =
    gamer_run-Chooses game_library plays game_library-IsJson {player_id = 1} (false ∷ true ∷ [])
      refl (omega arith) (state_then {st = field} refl no_states)
      ((omega arith, (omega arith, tt)), tt) refl (refl, tt) refl

abbrev arguments : List String
arguments = "--strategy" ∷ "DrunkStrategy" ∷ "-p" ∷ "1234" ∷ []

-- A function in the place of `atoi`.
abbrev digits : String → ℕ
digits text = 7

abbrev options : Options
options = record { port = some 7; strategy = some drunk }

parse_options-is_assigned_example :
    (is_assigned options.port ≡ true) × (is_assigned options.strategy ≡ true)
unfolding parse_options parse_from set_option strategy_from_string find_index
parse_options-is_assigned_example =
    parse_options-is_assigned digits "gamer" arguments options refl refl refl
