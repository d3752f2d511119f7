-- ===== src/Mio/Reader.antt =====
-- `AsyncReader::read` of include/mio/async_io.hpp, and `Connection::onInput` of connection.hpp.
use angry_balls.Base.{List, [], ◌∷◌, Bool, true, false, Option, none, some}
use angry_balls.Bytes.{Bytes}

-- What a call of `recv` brings: bytes, none of them when the peer has closed; EWOULDBLOCK or EAGAIN; or
-- another error.
pub data Recv : Type 0 where
  received : Bytes → Recv
  would_block recv_failed : Recv

-- The value that `read` returns, with the protocol; an exception; or the loop goes on after the calls
-- given.
pub data ReadEnd (P : Type 0) : Type 0 where
  returns : Bool → P → ReadEnd P
  throws : P → ReadEnd P
  reading : P → ReadEnd P

-- `process` is `processDataChunk`, `none` when it throws.
module _ {P : Type 0} (process : P → Bytes → Option P) where
  unfoldable pub read_socket : P → List Recv → ReadEnd P
  read_socket p [] = reading p
  read_socket p (would_block ∷ rs) = returns false p
  read_socket p (recv_failed ∷ rs) = throws p
  read_socket p (received [] ∷ rs) = returns true p
  read_socket p (received (b ∷ bs) ∷ rs) = elim (process p (b ∷ bs)) [
    | none ↦ throws p
    | some p' ↦ read_socket p' rs
  ]

  -- `onInput` of a connection with a reader: `need_close_` and the protocol, `none` for an exception or
  -- a loop that goes on.
  unfoldable pub on_input : Bool → P → List Recv → Option (Bool × P)
  unfolding read_socket
  on_input need_close p rs = elim (read_socket p rs) [
    | returns true p' ↦ some (true, p')
    | returns false p' ↦ some (need_close, p')
    | throws p' ↦ none
    | reading p' ↦ none
  ]
