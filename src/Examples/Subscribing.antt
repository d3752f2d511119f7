-- ===== src/Examples/Subscribing.antt =====
-- A client subscribes to a server on which nobody plays, and is confirmed.
use Prim.Native.String.{String}
use mathlib.Core.List.{flatten}
use angry_balls.Base.{
  ℕ, List, [], ◌∷◌, ◌++◌, ◌≢◌, ◌^◌, ◌%◌, true, false, map, some, ◌≡◌, refl, arith,
}
use angry_balls.Base.Int.{ℤ, ◌-ℤ◌, ◌+ℤ◌, ◌*ℤ◌}
use angry_balls.Bytes.{Bytes, encode_uint32}
use angry_balls.Double.Fixed.{fixed, root, root_from, fixed_product, fixed_quotient}
use angry_balls.Geometry.{distance}
use angry_balls.Generators.{get_default_player, search, overlaps, player_at, draw_player}
use angry_balls.Mio.{Connection, wrote, add_output, on_output}
use angry_balls.Mio.Reader.{received, would_block, returns}
use angry_balls.Client.Gamer.{subscribe_result}
use angry_balls.Client.Io.{received as client_received, recv_returns, recv_all}
use angry_balls.Protocol.{
  Message, client_subscribe_request_message, client_subscribe_result_message,
}
use angry_balls.Protocol.Build.{build, build_bare, build_result, build_json_message}
use angry_balls.Protocol.Json.{Json, IsJson}
use angry_balls.Protocol.Parse.{parse_json_message}
use angry_balls.Server.Framing.{State, initial, get_response}
use angry_balls.Server.GameState.Interface.{Engines, default_player, default_generators}
use angry_balls.Server.GameState.{Manager, add_player, place_player, init}
use angry_balls.Server.Game.Threads.{game_server}
use angry_balls.Server.Managers.{Server}
use angry_balls.Server.Wiring.{read_connection, handle_json}
use angry_balls.Server.Wiring.Subscribing.{subscribed, read_connection-subscribed}
use angry_balls.Server.Wiring.Confirming.{on_output-subscribe_result}
use angry_balls.Examples.Data.{engines, config}
use angry_balls.Examples.Game.{gen}
use angry_balls.Examples.Messages.{Value, text_value, library, library-IsJson}

-- The library that reads every text as one value.
abbrev reading : Value → Json ℤ Value
reading v = record (library v) { parse = λ s. some v }

reading-IsJson : (v : Value) → IsJson (reading v)
reading-IsJson v =
    let laws = library-IsJson v in
    record {
      get-assigned = laws.get-assigned;
      elements-appended = laws.elements-appended;
      is_text-text = laws.is_text-text;
      as_string-text = laws.as_string-text;
      as_uint-uint = laws.as_uint-uint;
      as_double-real = laws.as_double-real;
    }

abbrev json : Message ℤ → Json ℤ Value
json m = reading (build (library (text_value "")) m)

json-IsJson : (m : Message ℤ) → IsJson (json m)
json-IsJson m = reading-IsJson (build (library (text_value "")) m)

abbrev two_bytes : String → Bytes
two_bytes text = 7 ∷ 8 ∷ []

abbrev empty_server : Server ℤ (Engines ℕ) ℕ
empty_server = game_server config engines 0

abbrev asks : Message ℤ
asks = client_subscribe_request_message

abbrev asking : List Bytes
asking = (2 ∷ 0 ∷ 0 ∷ []) ∷ (0 ∷ 7 ∷ []) ∷ (8 ∷ []) ∷ []

nonempty : (b : ℕ) (bs : Bytes) → (b ∷ bs) ≢ []
nonempty b bs = λ e. cc

read_connection-subscribed_example :
    (m : Manager ℤ (Engines ℕ)) × ((st : State) × (read_connection
          (handle_json
            (λ c. true)
            gen
            (λ bytes. build_json_message (json asks) asks)
            0
            (parse_json_message (json asks))
            5)
          (initial, empty_server)
          (map received asking ++ would_block ∷ [])
        ≡ returns false (st, subscribed 5 0 m empty_server)))
unfolding default_generators default_player get_default_player search overlaps player_at draw_player
    distance fixed root root_from fixed_product fixed_quotient ◌-ℤ◌ ◌+ℤ◌ ◌*ℤ◌ add_player
    place_player init game_server get_response encode_uint32 flatten build build_bare
read_connection-subscribed_example = (
  _,
  read_connection-subscribed (json asks) (json-IsJson asks) (λ c. true) gen
      (λ bytes. build_json_message (json asks) asks) two_bytes 0 5 empty_server 0 _ asking refl refl
      refl refl (nonempty 7 (8 ∷ []), omega arith) (omega arith, (omega arith, (omega arith, tt)))
      refl,
)

abbrev confirms : Message ℤ
confirms = client_subscribe_result_message true 0

abbrev idle : Connection
idle = record {
  writer = record { buffer = []; wire = [] };
  output_queue = [];
  close_after_output = false;
  need_close = false;
}

on_output-subscribe_result_example :
    (sent : Connection) × (on_output get_response (λ k. wrote 6) (add_output (7 ∷ 8 ∷ []) idle)
      ≡ some sent)
    × (sent.writer.wire ≡ [] ++ (encode_uint32 2 ++ (7 ∷ 8 ∷ [])))
    × (recv_all (0 ∷ 0 ∷ 0 ∷ 0 ∷ []) [] (
          client_received (encode_uint32 2)
          ∷ client_received (7 ∷ [])
          ∷ client_received (8 ∷ [])
          ∷ [])
        ≡ recv_returns (2 % 2 ^ 32) (7 ∷ 8 ∷ []) [])
    × (subscribe_result (json confirms) (build_json_message (json confirms) confirms)
        ≡ some (some 0))
unfolding get_response encode_uint32 flatten build build_result
on_output-subscribe_result_example =
    on_output-subscribe_result (json confirms)
      (λ bytes. build_json_message (json confirms) confirms) two_bytes (json-IsJson confirms) idle
      (λ k. wrote 6) 0 (0 ∷ 0 ∷ 0 ∷ 0 ∷ []) ((7 ∷ []) ∷ []) (8 ∷ []) [] refl refl refl refl refl
      (omega arith) (omega arith) refl (omega arith) refl
