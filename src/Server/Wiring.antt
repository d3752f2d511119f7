-- ===== src/Server/Wiring.antt =====
-- The stack of a connection, as GameConnectionFactory of src/server/game_server.cpp builds it: an
-- AsyncReader hands its chunks to the length-prefixed protocol, and that hands its requests to a handler.
pub mod Delivery
pub mod Confirming
pub mod Subscribing
use Prim.Native.String.{String}
use angry_balls.Base.{ℕ, List, [], ◌∷◌, Bool, Option, none, some}
use angry_balls.Bytes.{Bytes}
use angry_balls.Double.{Double}
use angry_balls.Mio.Reader.{Recv, ReadEnd, read_socket}
use angry_balls.Protocol.{Message}
use angry_balls.Protocol.Parse.{Parsed}
use angry_balls.Server.Framing.{
  State, ok, length_error, assertion_failed, out_of_fuel, process_data_chunk,
}
use angry_balls.Server.GameState.Interface.{Generators}
use angry_balls.Server.Managers.{
  Server, returns, throws, null_read, asserts, searches, handle_request,
}

module _ {X : Type 0} (handle : Bytes → X → Option X) where
  -- The calls of the handler for the requests that a chunk has completed; `none` when one does not return.
  unfoldable pub handle_all : List Bytes → X → Option X
  handle_all [] x = some x
  handle_all (m ∷ ms) x = elim (handle m x) [ none ↦ none | some x' ↦ handle_all ms x' ]

  -- `InputLengthPrefixedProtocol::processDataChunk` with its handler; `none` when something throws.
  unfoldable pub process_chunk : State × X → Bytes → Option (State × X)
  unfolding handle_all
  process_chunk (s, x) chunk =
      let o = process_data_chunk s chunk in
      elim (handle_all o.handled x) [
        | none ↦ none
        | some x' ↦ elim o.result [
          | ok s' ↦ some (s', x')
          | length_error s' ↦ none
          | assertion_failed s' ↦ none
          | out_of_fuel ↦ none
        ]
      ]

  -- `read` of the connection.
  unfoldable pub read_connection : State × X → List Recv → ReadEnd (State × X)
  unfolding process_chunk
  read_connection p rs = read_socket process_chunk p rs

-- `JsonRequestParser::handleRequest` as the handler of the connection `c`; `text_of` makes a string of the
-- bytes of a request.
module _ {N G C : Type 0} ⦃d : Double N⦄ (is_open : C → Bool) (gen : Generators N G) where
  unfoldable pub handle_json :
      (Bytes → String)
      → ℕ
      → (String → Parsed (Message N))
      → C
      → Bytes
      → Server N G C
      → Option (Server N G C)
  handle_json text_of garbage parse_json_message c m s =
      elim (handle_request is_open gen garbage parse_json_message (text_of m) c s) [
        | returns s' ↦ some s'
        | throws ↦ none
        | null_read ↦ none
        | asserts ↦ none
        | searches ↦ none
      ]
