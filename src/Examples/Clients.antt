-- ===== src/Examples/Clients.antt =====
-- The strategies of the clients, the managers of the server and a request of a browser.
use mathlib.Core.List.{flatten}
use angry_balls.Base.{ℕ, List, [], ◌∷◌, ◌++◌, Bool, none, some, map, take, ◌≡◌, refl, ◌==◌, arith}
use angry_balls.Base.Int.{ℤ}
use angry_balls.Bytes.{Bytes}
use angry_balls.Double.Fixed.{fixed, fixed-IsOrder}
use angry_balls.Protocol.{finish_message, viewer_subscribe_request_message}
use angry_balls.Protocol.Parse.{parsed}
use angry_balls.Server.GameState.Interface.{Engines}
use angry_balls.Server.Managers.{
  Server, returns, send_to_all_observers, receive_message, add_connection, dispatch_message,
  add_viewer, send_message_to_connections, send_message,
}
use angry_balls.Server.Managers.Wired.{
  IsWired, deliveries, send_to_all_observers_lem, receive_message-IsWired,
}
use angry_balls.Strategies.{closest_coin_index}
use angry_balls.Strategies.Closest.{NoneNearer, Source, closest_coin_index-NoneNearer}
use angry_balls.Web.Request.{DfaStateForHttpRequest, bytes, request, waiting, read_http_request}
use angry_balls.Web.Request.Chunks.{read_http_request-header}
use angry_balls.Web.Request.Header.{header}
use angry_balls.Examples.Data.{player_at_x, three_coins}
use angry_balls.Examples.Game.{busy, gen}

abbrev request_chunks : List Bytes
request_chunks = (71 ∷ 13 ∷ 13 ∷ 10 ∷ []) ∷ (13 ∷ []) ∷ (10 ∷ 7 ∷ []) ∷ []

read_http_request-header_example :
    (k : DfaStateForHttpRequest) × (read_http_request (map bytes request_chunks)
      ≡ elim (header (flatten request_chunks)) [
        | none ↦ waiting (flatten request_chunks) k
        | some n ↦ request (take n (flatten request_chunks))
      ])
read_http_request-header_example = read_http_request-header request_chunks

closest_coin_index-NoneNearer_example :
    (least : ℤ) × NoneNearer (player_at_x 0 1).center least three_coins
    × Source
        (player_at_x 0 1).center
        three_coins
        least
        (closest_coin_index (player_at_x 0 1).center three_coins)
closest_coin_index-NoneNearer_example =
    closest_coin_index-NoneNearer (player_at_x 0 1).center fixed-IsOrder three_coins

-- Two connections, the second of which is lost.
abbrev is_open : ℕ → Bool
is_open c = c == 10

abbrev server : Server ℤ (Engines ℕ) ℕ
server = record {
  manager = busy;
  connections = 10 ∷ 11 ∷ [];
  client_ids = 0 ∷ [];
  viewer_ids = 1 ∷ [];
  output = [];
}

server-IsWired : IsWired is_open gen server
server-IsWired = record { clients = (omega arith, tt); viewers = (omega arith, tt) }

send_to_all_observers_lem_example :
    send_to_all_observers is_open gen finish_message server
    ≡ returns (record server {
      output =
          ([] ++ deliveries is_open gen finish_message (10 ∷ 11 ∷ []) (0 ∷ []))
          ++ deliveries is_open gen finish_message (10 ∷ 11 ∷ []) (1 ∷ []);
    })
send_to_all_observers_lem_example =
    send_to_all_observers_lem is_open gen finish_message server server-IsWired

receive_message-IsWired_example :
    IsWired is_open gen
      (elim (receive_message is_open gen 0 (parsed viewer_subscribe_request_message) 10 server) [
        | returns s ↦ s
        | _ ↦ server
      ])
unfolding receive_message add_connection dispatch_message add_viewer send_message_to_connections
    send_message
receive_message-IsWired_example =
    receive_message-IsWired is_open gen 0 (parsed viewer_subscribe_request_message) 10 server refl
      server-IsWired
