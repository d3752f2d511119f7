-- ===== src/Server/Wiring/Confirming.antt =====
-- The confirmation of a subscription, from the queue of the server's connection to the client.
use Prim.Native.String.{String}
use mathlib.Core.List.{flatten}
use angry_balls.Base.{
  ℕ, ◌+◌, ◌%◌, ◌^◌, ◌<◌, List, [], ◌∷◌, ◌++◌, true, map, length, some, append-nil, ◌≡◌, refl, sym,
  ap, ◌∙◌, subst, arith,
}
use angry_balls.Bytes.{Bytes, encode_uint32}
use angry_balls.Double.{Double}
use angry_balls.Mio.{Connection, Written, wrote, add_output, on_output}
use angry_balls.Mio.Output.{TakesAll, on_output-TakesAll}
use angry_balls.Protocol.{Message, client_subscribe_result_message}
use angry_balls.Protocol.Build.{build, build_json_message}
use angry_balls.Protocol.Json.{Json, IsJson}
use angry_balls.Protocol.RoundTrip.{parse_json_message-build}
use angry_balls.Server.Framing.{get_response}
use angry_balls.Client.Gamer.{subscribe_result}
use angry_balls.Client.Io.{Received, received as client_received, recv_returns, recv_all}
use angry_balls.Client.Io.Messages.{recv_all-framed}

module _ {N V : Type 0} ⦃d : Double N⦄ (j : Json N V) (text_of : Bytes → String)
    (bytes_of : String → Bytes) where
  -- The bytes of a message, as `BuildJsonResponse` and the client make them.
  abbrev pub bytes_of_message : Message N → Bytes
  bytes_of_message m = bytes_of (build_json_message j m)

  -- The bytes of the text make that text again.
  abbrev pub IsReadable : Message N → Type 0
  IsReadable m = text_of (bytes_of_message m) ≡ build_json_message j m

  module _ (laws : IsJson j) where
    -- The confirmation that a connection is given to send: if nothing waits before it and the socket takes
    -- all of it, it is on the wire behind its length, and the client to which the socket brings that
    -- length first and then the rest in any pieces receives the message and takes the id of its player
    -- from it. It asks that the text is read as the value that was written, that its bytes make the text
    -- again and are fewer than 2 ^ 32, and that the id has 32 bits.
    pub on_output-subscribe_result :
        (connection : Connection) (answers : ℕ → Written) (id : ℕ) (garbage : Bytes)
        (cs : List Bytes) (last : Bytes) (rs : List Received)
        → let message : Message N = client_subscribe_result_message true id in
          let bytes = bytes_of_message message in
          connection.writer.buffer ≡ []
          → connection.output_queue ≡ []
          → answers 0 ≡ wrote (length (get_response bytes))
          → IsReadable message
          → j.parse (build_json_message j message) ≡ some (build j message)
          → id < 2 ^ 32
          → length bytes < 2 ^ 32
          → length garbage ≡ 4
          → length (flatten cs) < length bytes
          → flatten cs ++ last ≡ bytes
          → (sent : Connection) × (on_output get_response answers (add_output bytes connection)
              ≡ some sent)
            × (sent.writer.wire
                ≡ connection.writer.wire ++ (encode_uint32 (length bytes) ++ (flatten cs ++ last)))
            × (recv_all garbage [] (
                  client_received (encode_uint32 (length bytes))
                  ∷ (map client_received cs ++ client_received last ∷ rs))
                ≡ recv_returns (length bytes % 2 ^ 32) bytes rs)
            × (subscribe_result j (text_of bytes) ≡ some (some id))
    unfolding add_output subscribe_result flatten get_response
    on_output-subscribe_result connection answers id garbage cs last rs empty idle taken readable
          reads narrow room four before e =
        let message : Message N = client_subscribe_result_message true id in
        let bytes = bytes_of_message message in
        let queued : connection.output_queue ++ bytes ∷ [] ≡ bytes ∷ [] =
          ap (λ q. q ++ bytes ∷ []) idle in
        let takes : TakesAll get_response answers 0 (connection.output_queue ++ bytes ∷ []) =
          subst (TakesAll get_response answers 0) (sym queued) (taken, tt) in
        let (sent, went, none_left, no_rest, wire) =
          on_output-TakesAll get_response answers (add_output bytes connection) empty takes in
        let read =
          recv_all-framed bytes garbage [] cs last [] rs four room before
            (e ∙ sym (append-nil bytes)) in
        let all_of : length bytes + 0 ≡ length bytes = omega arith in
        (
          sent,
          went,
          wire
              ∙ ap (λ q. connection.writer.wire ++ flatten (map get_response q)) queued
              ∙ ap (λ l. connection.writer.wire ++ l) (append-nil (get_response bytes))
              ∙ ap (λ l. connection.writer.wire ++ (encode_uint32 (length bytes) ++ l)) (sym e),
          read
              ∙ ap (λ n. recv_returns (n % 2 ^ 32) (bytes ++ []) rs) all_of
              ∙ ap (λ l. recv_returns (length bytes % 2 ^ 32) l rs) (append-nil bytes),
          rw
              (
                subscribe_result,
                readable,
                parse_json_message-build j laws message (build_json_message j message) narrow reads,
              )
              refl,
        )
