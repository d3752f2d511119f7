-- ===== src/Server/Framing.antt =====
-- src/server/protocol.hpp: the reader that cuts the incoming stream into requests, and the writer
-- that puts the length in front of a response. A chunk is what one `recv` brought.
pub mod Spec
pub mod Refinement
pub mod RoundTrip
use angry_balls.Base.{
  ℕ, zero, suc, ◌+◌, ◌-◌, ◌*◌, ◌^◌, List, [], ◌∷◌, ◌++◌, Bool, take, drop, replicate, length, ltb,
  leb, ◌==◌, if◌then◌else◌,
}
use angry_balls.Bytes.{Bytes, encode_uint32, decode_uint32}

pub data StateType : Type 0 where
  reading_length reading_data : StateType

abbrev pub length_size : ℕ
length_size = 4

-- `State`. The buffer is a vector of fixed size whose first `read_length` bytes have been read.
pub record State : Type 0 where
  pub state : StateType
  pub message_length : ℕ
  pub read_length : ℕ
  pub buffer : Bytes

-- `State(length_size)`.
abbrev pub initial : State
initial = record {
  state = reading_length;
  message_length = length_size;
  read_length = 0;
  buffer = replicate length_size 0;
}

-- `std::copy` of `portion` into the buffer, from `offset` on.
abbrev pub copy_at : Bytes → ℕ → Bytes → Bytes
copy_at buffer offset portion =
    take offset buffer ++ (portion ++ drop (offset + length portion) buffer)

-- `message_length = length` of an `int` read from a `uint32_t`: the sign is extended to 64 bits.
abbrev pub sign_extend : ℕ → ℕ
sign_extend n = if ltb n (2 ^ 31) then n else n + (2 ^ 64 - 2 ^ 32)

-- What an iteration or a call ends in. A vector of more than `max_size()` bytes is refused by
-- `std::length_error`, which nothing in the server catches.
pub data Result : Type 0 where
  ok : State → Result
  length_error : State → Result
  assertion_failed : State → Result
  out_of_fuel : Result

abbrev pub max_size : ℕ
max_size = 2 ^ 63 - 1

-- The requests handed to the handler, oldest first, and how the call ended.
pub record Outcome : Type 0 where
  pub handled : List Bytes
  pub result : Result

abbrev pub stop : Result → Outcome
stop r = record { handled = []; result = r }

-- `case READING_LENGTH` when the chunk ends inside the length.
unfoldable pub store_portion : State → Bytes → State
store_portion s seek = record s {
  buffer = copy_at s.buffer s.read_length seek;
  read_length = s.read_length + length seek;
}

-- `case READING_LENGTH` when the length is complete: its bytes are in `full`.
unfoldable pub start_message : State → Bytes → Result
start_message s full =
    let size = sign_extend (decode_uint32 full) in
    let begun = record s {
      state = reading_data;
      message_length = size;
      read_length = 0;
      buffer = full;
    } in
    if length full == s.message_length
    then (if ltb max_size size
        then length_error begun
        else ok (record begun { buffer = replicate size 0 }))
    else assertion_failed (record s { buffer = full })

emit : Bytes → Outcome → Outcome
emit message o = record o { handled = message ∷ o.handled }

follow : (State → Bytes → Outcome) → Result → Bytes → Outcome
follow continue (ok s) rest = continue s rest
follow continue r rest = stop r

-- The `switch` of `processDataChunk`; `continue` is the next round of its loop.
unfoldable pub dispatch : (State → Bytes → Outcome) → StateType → State → Bytes → Outcome
unfolding emit follow
dispatch continue reading_length s seek =
    if ltb (length seek + s.read_length) s.message_length
    then stop (ok (record (store_portion s seek) { message_length = length_size }))
    else let remaining = s.message_length - s.read_length in
      follow continue (start_message s (copy_at s.buffer s.read_length (take remaining seek)))
        (drop remaining seek)
dispatch continue reading_data s seek =
    if ltb (length seek + s.read_length) s.message_length
    then stop (ok (store_portion s seek))
    else let remaining = s.message_length - s.read_length in
      emit (copy_at s.buffer s.read_length (take remaining seek))
        (continue initial (drop remaining seek))

-- `while (buffer_seek != buffer->end())`.
unfoldable pub loop : ℕ → State → Bytes → Outcome
loop zero s [] = stop (ok s)
loop zero s (b ∷ bs) = stop out_of_fuel
loop (suc f) s [] = stop (ok s)
loop (suc f) s (b ∷ bs) = dispatch (loop f) s.state s (b ∷ bs)

-- A round takes a byte off the chunk or completes an empty message, which is read out in one more.
unfoldable pub process_data_chunk : State → Bytes → Outcome
process_data_chunk s chunk = loop (2 * length chunk + 1) s chunk

-- `OutputLengthPrefixedProtocol::getResponse`.
unfoldable pub get_response : Bytes → Bytes
get_response body = encode_uint32 (length body) ++ body
