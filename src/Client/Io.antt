-- ===== src/Client/Io.antt =====
-- `ClientIO` of src/client/gamer.cpp: whole messages over a socket. The calls of `send` and of `recv`
-- bring what the lists say, in their order.
pub mod Messages
use angry_balls.Base.{
  ℕ, zero, suc, ◌+◌, ◌-◌, ◌%◌, ◌^◌, List, [], ◌∷◌, ◌++◌, take, drop, length, ltb, if◌then◌else◌,
}
use angry_balls.Bytes.{Bytes, encode_uint32, decode_uint32, uint32_mod}

-- What a call of `send` brings: so many bytes taken, or -1.
pub data Sent : Type 0 where
  sent : ℕ → Sent
  send_error : Sent

-- What a call of `recv` brings: bytes, none of them at the end of the stream, or -1.
pub data Received : Type 0 where
  received : Bytes → Received
  recv_error : Received

-- The `int` that is -1, as the 32 bits that it has.
abbrev pub minus_one : ℕ
minus_one = 2 ^ 32 - 1

-- The `int` that `SendAll` returns with what is on the wire, or that it goes on after the calls given.
pub data SendResult : Type 0 where
  send_returns : ℕ → Bytes → SendResult
  sending : Bytes → SendResult

-- The same of `RecvAll` with `buf` and the calls that are left.
pub data RecvResult : Type 0 where
  recv_returns : ℕ → Bytes → List Received → RecvResult
  receiving : Bytes → RecvResult

abbrev pub size_t_mod : ℕ
size_t_mod = 2 ^ 64

-- The loop of `SendAll`.
unfoldable pub send_from : Bytes → ℕ → Bytes → List Sent → SendResult
send_from full_buf total_sent wire [] =
    if ltb total_sent (length full_buf)
    then sending wire
    else send_returns (total_sent % 2 ^ 32) wire
send_from full_buf total_sent wire (sent n ∷ rs) =
    let later =
      send_from full_buf (total_sent + n) (wire ++ take n (drop total_sent full_buf)) rs in
    if ltb total_sent (length full_buf) then later else send_returns (total_sent % 2 ^ 32) wire
send_from full_buf total_sent wire (send_error ∷ rs) =
    if ltb total_sent (length full_buf)
    then send_returns minus_one wire
    else send_returns (total_sent % 2 ^ 32) wire

unfoldable pub send_all : Bytes → List Sent → SendResult
unfolding send_from
send_all buf rs = send_from (encode_uint32 (length buf) ++ buf) 0 [] rs

-- The loop of `RecvAll`; a call takes up to 1024 bytes, however few are missing.
unfoldable pub recv_from : ℕ → ℕ → Bytes → List Received → RecvResult
recv_from n total buf [] =
    if ltb total n then receiving buf else recv_returns (total % 2 ^ 32) buf []
recv_from n total buf (received bs ∷ rs) =
    let later = recv_from n (total + length bs) (buf ++ bs) rs in
    if ltb total n then later else recv_returns (total % 2 ^ 32) buf (received bs ∷ rs)
recv_from n total buf (recv_error ∷ rs) =
    if ltb total n
    then recv_returns minus_one buf rs
    else recv_returns (total % 2 ^ 32) buf (recv_error ∷ rs)

-- `RecvAll`; `garbage` is what stands in `buf_length` before the first call, which may bring fewer than
-- four bytes.
unfoldable pub recv_all : Bytes → Bytes → List Received → RecvResult
unfolding recv_from
recv_all garbage buf [] = receiving buf
recv_all garbage buf (received bs ∷ rs) =
    recv_from (decode_uint32 (bs ++ drop (length bs) garbage)) 0 buf rs
recv_all garbage buf (recv_error ∷ rs) = recv_returns minus_one buf rs
