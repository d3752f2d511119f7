-- ===== src/Server/Wiring/Subscribing.antt =====
-- The subscription of a client, from its bytes on the socket of the server to its answer.
use Prim.Native.String.{String, ◌++◌ as append}
use mathlib.Core.List.{flatten}
use angry_balls.Base.{
  ℕ, ◌<◌, List, [], ◌∷◌, ◌++◌, Bool, true, false, All, map, length, some, get_elem?,
  get_elem?-length, length-append, append-nil, ◌-◌, ◌≡◌, refl, sym, ap, ◌∙◌, arith,
}
use angry_balls.Bytes.{Bytes}
use angry_balls.Double.{Double}
use angry_balls.Mio.Reader.{received, would_block, returns}
use angry_balls.Protocol.{client_subscribe_request_message, client_subscribe_result_message}
use angry_balls.Protocol.Build.{build, build_json_message}
use angry_balls.Protocol.Json.{Json, IsJson}
use angry_balls.Protocol.Parse.{parsed, parse_json_message}
use angry_balls.Protocol.RoundTrip.{parse_json_message-build}
use angry_balls.Server.Framing.{State, initial, get_response}
use angry_balls.Server.Framing.RoundTrip.{IsFramed}
use angry_balls.Server.GameState.Interface.{Generators}
use angry_balls.Server.GameState.{Manager, added, add_player}
use angry_balls.Server.Managers.{
  Server, returns as manager_returns, send_message, send_message_to_connections, add_connection,
  add_client, dispatch_message, receive_message, handle_request,
}
use angry_balls.Server.Wiring.{handle_all, read_connection, handle_json}
use angry_balls.Server.Wiring.Confirming.{bytes_of_message, IsReadable}
use angry_balls.Server.Wiring.Delivery.{read_connection-get_response}

-- The server when the subscription of the connection `c` has added the player `id`.
abbrev pub subscribed : {N G C : Type 0} → C → ℕ → Manager N G → Server N G C → Server N G C
subscribed c id m s = record {
  manager = m;
  connections = s.connections ++ c ∷ [];
  client_ids = s.client_ids ++ length s.connections ∷ [];
  viewer_ids = s.viewer_ids;
  output = s.output ++ (c, client_subscribe_result_message true id) ∷ [];
}

module _ {N V G C : Type 0} ⦃d : Double N⦄ (j : Json N V) (laws : IsJson j) (is_open : C → Bool)
    (gen : Generators N G) where
  add_client-added :
      (garbage index : ℕ) (c : C) (s : Server N G C) (id : ℕ) (m : Manager N G)
      → get_elem? s.connections index ≡ some c
      → is_open c ≡ true
      → add_player gen s.manager ≡ added id m
      → add_client is_open gen garbage index s
        ≡ manager_returns (record {
          manager = m;
          connections = s.connections;
          client_ids = s.client_ids ++ index ∷ [];
          viewer_ids = s.viewer_ids;
          output = s.output ++ (c, client_subscribe_result_message true id) ∷ [];
        })
  unfolding add_client send_message_to_connections send_message
  add_client-added garbage index c s id m there on come =
      rw (add_client, come, send_message_to_connections, send_message, there, on) refl

  receive_message-subscribed :
      (garbage : ℕ) (c : C) (s : Server N G C) (id : ℕ) (m : Manager N G)
      → is_open c ≡ true
      → add_player gen s.manager ≡ added id m
      → receive_message is_open gen garbage (parsed client_subscribe_request_message) c s
        ≡ manager_returns (subscribed c id m s)
  unfolding receive_message add_connection dispatch_message
  receive_message-subscribed garbage c s id m on come =
      let connected : Server N G C = record s { connections = s.connections ++ c ∷ [] } in
      let size : length (s.connections ++ c ∷ []) - 1 ≡ length s.connections =
        omega (arith, length-append s.connections (c ∷ [])) in
      ap (λ k. add_client is_open gen garbage k connected) size
      ∙ add_client-added garbage (length s.connections) c connected id m
          (get_elem?-length s.connections [] c) on come

  module _ (text_of : Bytes → String) (bytes_of : String → Bytes) where
    handle_json-subscribed :
        (garbage : ℕ) (c : C) (s : Server N G C) (id : ℕ) (m : Manager N G)
        → is_open c ≡ true
        → add_player gen s.manager ≡ added id m
        → IsReadable j text_of bytes_of client_subscribe_request_message
        → j.parse (append (build_json_message j client_subscribe_request_message) "\0")
          ≡ some (build j client_subscribe_request_message)
        → handle_json is_open gen text_of garbage
            (parse_json_message j)
            c
            (bytes_of_message j text_of bytes_of client_subscribe_request_message)
            s
          ≡ some (subscribed c id m s)
    unfolding handle_json handle_request
    handle_json-subscribed garbage c s id m on come readable reads =
        let text = append (build_json_message j client_subscribe_request_message) "\0" in
        let read = parse_json_message-build j laws client_subscribe_request_message text tt reads in
        let handled = receive_message-subscribed garbage c s id m on come in
        rw (handle_json, readable, on, read, handled) refl

    -- A client's framed request to subscribe, however the socket cuts it into chunks, is read by the
    -- server on a fresh open connection and handled: if the field takes a player, the server has that
    -- player, lists the connection as a client, and puts one message out, the confirmation with the
    -- player's id on that connection. It asks that the text of the request with a NUL behind it is read
    -- as the value that was written, that its bytes make the text again, and that there are some of them
    -- but fewer than 2 ^ 31.
    pub read_connection-subscribed :
        (garbage : ℕ) (c : C) (s : Server N G C) (id : ℕ) (m : Manager N G) (chunks : List Bytes)
        → is_open c ≡ true
        → add_player gen s.manager ≡ added id m
        → IsReadable j text_of bytes_of client_subscribe_request_message
        → j.parse (append (build_json_message j client_subscribe_request_message) "\0")
          ≡ some (build j client_subscribe_request_message)
        → IsFramed (bytes_of_message j text_of bytes_of client_subscribe_request_message)
        → All (λ chunk. 0 < length chunk) chunks
        → flatten chunks
          ≡ get_response (bytes_of_message j text_of bytes_of client_subscribe_request_message)
        → (st : State) × (read_connection
              (handle_json is_open gen text_of garbage (parse_json_message j) c)
              (initial, s)
              (map received chunks ++ would_block ∷ [])
            ≡ returns false (st, subscribed c id m s))
    unfolding handle_all flatten
    read_connection-subscribed garbage c s id m chunks on come readable reads framed some_bytes e =
        let request_bytes = bytes_of_message j text_of bytes_of client_subscribe_request_message in
        let handled = handle_json-subscribed garbage c s id m on come readable reads in
        let (st, read, at_start) =
          read_connection-get_response
            (handle_json is_open gen text_of garbage (parse_json_message j) c) (request_bytes ∷ [])
            chunks s (subscribed c id m s) (framed, tt) some_bytes
            (e ∙ sym (append-nil (get_response request_bytes))) (rw (handle_all, handled) refl) in
        (st, read)
