-- ===== src/Mio.antt =====
-- include/mio/connection.hpp and async_io.hpp: the output of a connection. What the socket answers to
-- the k-th call of `write` is given; the bytes it has taken are in `wire`.
pub mod Output
pub mod Table
pub mod Reader
pub mod Events
pub mod Socket
pub mod ServerSocket
pub mod Accepting
use angry_balls.Base.{
  ℕ, zero, suc, ◌+◌, List, [], ◌∷◌, ◌++◌, Bool, true, false, ◌||◌, take, Option, none, some,
}
use angry_balls.Bytes.{Bytes}

-- The result of `Socket::write`: so many bytes taken, EWOULDBLOCK or EAGAIN (or the socket is gone),
-- or another error.
pub data Written : Type 0 where
  wrote : ℕ → Written
  would_block write_failed : Written

-- `AsyncWriter`, with its socket.
pub record Writer : Type 0 where
  pub buffer : Bytes
  pub wire : Bytes

-- `ConnectionWithOutput`.
pub record Connection : Type 0 where
  pub writer : Writer
  pub output_queue : List Bytes
  pub close_after_output : Bool
  pub need_close : Bool

abbrev pub buffer_or : Bytes → Bytes → Bytes
buffer_or [] response = response
buffer_or (b ∷ bs) response = b ∷ bs

-- `AsyncWriter::write` of a message, with the answer of the socket; `none` is the exception.
unfoldable pub write : (Bytes → Bytes) → Bytes → Written → Writer → Option Writer
write get_response message (wrote n) w =
    some
      (record { buffer = []; wire = w.wire ++ take n (buffer_or w.buffer (get_response message)) })
write get_response message would_block w =
    some (record w { buffer = buffer_or w.buffer (get_response message) })
write get_response message write_failed w = none

-- The loop of `onOutput` over the queue; after an exception the front of the queue stays.
unfoldable pub write_queue :
    (Bytes → Bytes) → (ℕ → Written) → ℕ → List Bytes → Writer → Option Writer
unfolding write
write_queue get_response answers k [] w = some w
write_queue get_response answers k (m ∷ ms) w = elim (write get_response m (answers k) w) [
  | none ↦ none
  | some w' ↦ write_queue get_response answers (suc k) ms w'
]

-- `ConnectionWithOutput::onOutput`.
unfoldable pub on_output : (Bytes → Bytes) → (ℕ → Written) → Connection → Option Connection
unfolding write_queue
on_output get_response answers c =
    elim (write_queue get_response answers 0 c.output_queue c.writer) [
      | none ↦ none
      | some w ↦ some (record {
        writer = w;
        output_queue = [];
        close_after_output = c.close_after_output;
        need_close = c.close_after_output || c.need_close;
      })
    ]

-- `addOutput` and `setCloseAfterOutput`.
unfoldable pub add_output : Bytes → Connection → Connection
add_output output c = record c { output_queue = c.output_queue ++ output ∷ [] }

unfoldable pub set_close_after_output : Connection → Connection
set_close_after_output c = record c { close_after_output = true }
