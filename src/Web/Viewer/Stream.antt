-- ===== src/Web/Viewer/Stream.antt =====
-- `RecvBuf`, `SendBuf`, `ReceiveFullMessage` and `send_full_message` of
-- src/web-ui-client/viewer_client.cpp.
pub mod Reading
use angry_balls.Base.{
  ℕ, ◌+◌, ◌-◌, ◌%◌, ◌^◌, List, [], ◌∷◌, ◌++◌, take, drop, length, replicate, ltb, if◌then◌else◌,
}
use angry_balls.Bytes.{Bytes, encode_uint32, decode_uint32}

-- What a call of `read` brings: bytes, none of them when the peer has closed; EINTR; another error.
pub data Read : Type 0 where
  got : Bytes → Read
  interrupted failed : Read

-- The buffer, with the calls that are left; an error; a write past the end of the buffer; or the loop
-- goes on after the calls given.
pub data ReadResult : Type 0 where
  read_done : Bytes → List Read → ReadResult
  read_error overrun reading : ReadResult

-- A write of `bs` at `pos`.
abbrev pub write_at : ℕ → Bytes → Bytes → Bytes
write_at pos bs data_ = take pos data_ ++ (bs ++ drop (pos + length bs) data_)

-- The loop of `RecvBuf`: each call asks for `length` bytes, however many are there already; after EINTR
-- `read_pos` goes up by -1, modulo 2^64.
unfoldable pub recv_buf_from : ℕ → ℕ → Bytes → List Read → ReadResult
recv_buf_from n read_pos data_ [] = if ltb read_pos n then reading else read_done data_ []
recv_buf_from n read_pos data_ (got [] ∷ rs) =
    if ltb read_pos n then read_error else read_done data_ (got [] ∷ rs)
recv_buf_from n read_pos data_ (got (b ∷ bs) ∷ rs) =
    let end = read_pos + length (b ∷ bs) in
    let later = recv_buf_from n end (write_at read_pos (b ∷ bs) data_) rs in
    if ltb read_pos n
    then (if ltb n end then overrun else later)
    else read_done data_ (got (b ∷ bs) ∷ rs)
recv_buf_from n read_pos data_ (interrupted ∷ rs) =
    let later = recv_buf_from n ((read_pos + (2 ^ 64 - 1)) % 2 ^ 64) data_ rs in
    if ltb read_pos n then later else read_done data_ (interrupted ∷ rs)
recv_buf_from n read_pos data_ (failed ∷ rs) =
    if ltb read_pos n then read_error else read_done data_ (failed ∷ rs)

-- `RecvBuf` into a buffer of which `n` bytes may be written.
unfoldable pub recv_buf : ℕ → Bytes → List Read → ReadResult
unfolding recv_buf_from
recv_buf n data_ rs = recv_buf_from n 0 data_ rs

-- `ReceiveFullMessage`; `garbage` is what `size_buf` holds.
unfoldable pub receive_full_message : Bytes → List Read → ReadResult
unfolding recv_buf
receive_full_message garbage rs = elim (recv_buf 4 garbage rs) [
  | read_done size_buf rs' ↦
      let message_length = decode_uint32 size_buf in
      recv_buf message_length (replicate message_length 0) rs'
  | read_error ↦ read_error
  | overrun ↦ overrun
  | reading ↦ reading
]

-- What a call of `send` brings: so many bytes taken, EINTR or another error.
pub data Sent : Type 0 where
  sent : ℕ → Sent
  send_interrupted send_failed : Sent

-- What is on the wire, with the calls that are left.
pub data SendResult : Type 0 where
  send_done : Bytes → List Sent → SendResult
  send_error : Bytes → SendResult
  sending : Bytes → SendResult

-- The loop of `SendBuf`; `sent 0` is a connection that was closed.
unfoldable pub send_buf_from : Bytes → ℕ → Bytes → List Sent → SendResult
send_buf_from data_ written wire [] =
    if ltb written (length data_) then sending wire else send_done wire []
send_buf_from data_ written wire (sent n ∷ rs) =
    let later = send_buf_from data_ (written + n) (wire ++ take n (drop written data_)) rs in
    if ltb written (length data_)
    then (if ltb 0 n then later else send_error wire)
    else send_done wire (sent n ∷ rs)
send_buf_from data_ written wire (send_interrupted ∷ rs) =
    let later = send_buf_from data_ ((written + (2 ^ 64 - 1)) % 2 ^ 64) wire rs in
    if ltb written (length data_) then later else send_done wire (send_interrupted ∷ rs)
send_buf_from data_ written wire (send_failed ∷ rs) =
    if ltb written (length data_) then send_error wire else send_done wire (send_failed ∷ rs)

unfoldable pub send_buf : Bytes → Bytes → List Sent → SendResult
unfolding send_buf_from
send_buf data_ wire rs = send_buf_from data_ 0 wire rs

unfoldable pub send_full_message : Bytes → Bytes → List Sent → SendResult
unfolding send_buf
send_full_message buf wire rs = elim (send_buf (encode_uint32 (length buf)) wire rs) [
  | send_done wire' rs' ↦ send_buf buf wire' rs'
  | send_error wire' ↦ send_error wire'
  | sending wire' ↦ sending wire'
]
