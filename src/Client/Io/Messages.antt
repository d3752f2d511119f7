-- ===== src/Client/Io/Messages.antt =====
-- Messages that pass from `SendAll` to `RecvAll`.
use mathlib.Core.List.{flatten}
use angry_balls.Base.{
  ℕ, zero, suc, ◌+◌, ◌%◌, ◌^◌, ◌<◌, ◌≤◌, List, [], ◌∷◌, ◌++◌, All, map, take, drop, take_all,
  take_plus, sum, drop_all, replicate, append-nil, append_assoc, length, length-append, ltb, ◌≡◌,
  refl, ap, ◌∙◌, true, false, arith,
}
use angry_balls.Bytes.{
  Bytes, encode_uint32, decode_uint32, length-encode_uint32, decode_uint32-encode_uint32,
}
use angry_balls.Client.Io.{
  sent, Received, received, recv_error, send_returns, recv_returns, receiving, send_from, send_all,
  recv_from, recv_all,
}

send_from_complete :
    (full_buf : Bytes) (total_sent : ℕ) (ns : List ℕ)
    → All (λ n. 0 < n) ns
    → total_sent + sum ns ≡ length full_buf
    → send_from full_buf total_sent (take total_sent full_buf) (map sent ns)
      ≡ send_returns (length full_buf % 2 ^ 32) full_buf
unfolding send_from
send_from_complete full_buf total_sent [] h e =
    let end : ltb total_sent (length full_buf) ≡ false = ground arith in
    let all : total_sent ≡ length full_buf = omega arith in
    rw (send_from, end, take_all full_buf total_sent (omega arith), all) refl
send_from_complete full_buf total_sent (n ∷ ns) (h, hs) e =
    let more : ltb total_sent (length full_buf) ≡ true = ground arith in
    rw (send_from, more, take_plus total_sent n full_buf)
      (send_from_complete full_buf (total_sent + n) ns hs (omega arith))

recv_from_end :
    (n total : ℕ) (buf : Bytes) (rs : List Received)
    → n ≤ total
    → recv_from n total buf rs ≡ recv_returns (total % 2 ^ 32) buf rs
unfolding recv_from
recv_from_end n total buf [] h = ground arith
recv_from_end n total buf (received bs ∷ rs) h = ground arith
recv_from_end n total buf (recv_error ∷ rs) h = ground arith

-- The calls go on until the last of them reaches `n`.
recv_from_chunks :
    (n total : ℕ) (buf : Bytes) (cs : List Bytes) (last : Bytes) (rs : List Received)
    → total + length (flatten cs) < n
    → n ≤ total + length (flatten cs ++ last)
    → recv_from n total buf (map received cs ++ received last ∷ rs)
      ≡ recv_returns
          ((total + length (flatten cs ++ last)) % 2 ^ 32)
          (buf ++ (flatten cs ++ last))
          rs
unfolding recv_from flatten
recv_from_chunks n total buf [] last rs h k =
    let more : ltb total n ≡ true = ground arith in
    rw (recv_from, more) (recv_from_end n (total + length last) (buf ++ last) rs k)
recv_from_chunks n total buf (c ∷ cs) last rs h k =
    let rest = flatten cs ++ last in
    let split = length-append c (flatten cs) in
    let whole = length-append c rest in
    let assoc = append_assoc c (flatten cs) last in
    let more : ltb total n ≡ true = ground arith in
    let enough : n ≤ total + length c + length rest = omega (arith, k, whole, ap length assoc) in
    let further =
      recv_from_chunks n (total + length c) (buf ++ c) cs last rs (omega arith) enough in
    let sums : total + length c + length rest ≡ total + length (c ++ rest) = omega arith in
    rw (recv_from, more, further, sums, append_assoc buf c rest, assoc) refl

header_alone :
    (header garbage : Bytes)
    → length header ≡ 4
    → length garbage ≡ 4
    → header ++ drop (length header) garbage ≡ header
header_alone header garbage four room =
    ap (λ l. header ++ l) (drop_all garbage (length header) (omega arith)) ∙ append-nil header

-- RecvAll of a message behind its length, from a buffer that holds `buf`.
pub recv_all-framed :
    (message garbage buf : Bytes) (cs : List Bytes) (last extra : Bytes) (rs : List Received)
    → length garbage ≡ 4
    → length message < 2 ^ 32
    → length (flatten cs) < length message
    → flatten cs ++ last ≡ message ++ extra
    → recv_all garbage buf
        (received (encode_uint32 (length message)) ∷ (map received cs ++ received last ∷ rs))
      ≡ recv_returns ((length message + length extra) % 2 ^ 32) (buf ++ (message ++ extra)) rs
unfolding recv_all
recv_all-framed message garbage buf cs last extra rs room narrow before e =
    let header = encode_uint32 (length message) in
    let four = length-encode_uint32 (length message) in
    let reached = ap length e ∙ length-append message extra in
    let size : decode_uint32 header ≡ length message =
      decode_uint32-encode_uint32 (length message) ∙ omega arith in
    let sums : 0 + length (flatten cs ++ last) ≡ length message + length extra = omega arith in
    rw (header_alone header garbage four room, size)
      (recv_from_chunks (length message) 0 buf cs last rs (omega arith) (omega arith)
        ∙ ap (λ k. recv_returns (k % 2 ^ 32) (buf ++ (flatten cs ++ last)) rs) sums
        ∙ ap (λ l. recv_returns ((length message + length extra) % 2 ^ 32) (buf ++ l) rs) e)

-- RecvAll of a message that SendAll has sent, from a buffer that holds `buf`: when the first call brings
-- the four bytes of the length and the further ones bring the message, with the end of it in the last,
-- then RecvAll returns and appends the message, and after it whatever of the bytes that follow it on
-- the wire has come with the last call.
pub recv_all-send_all :
    (message garbage buf : Bytes) (ns : List ℕ) (cs : List Bytes) (last extra : Bytes)
    (rs : List Received)
    → length garbage ≡ 4
    → length message < 2 ^ 32
    → All (λ n. 0 < n) ns
    → sum ns ≡ 4 + length message
    → length (flatten cs) < length message
    → flatten cs ++ last ≡ message ++ extra
    → (header : Bytes) × (send_all message (map sent ns)
        ≡ send_returns ((4 + length message) % 2 ^ 32) (header ++ message))
      × (length header ≡ 4)
      × (recv_all garbage buf (received header ∷ (map received cs ++ received last ∷ rs))
          ≡ recv_returns ((length message + length extra) % 2 ^ 32) (buf ++ (message ++ extra)) rs)
unfolding send_all
recv_all-send_all message garbage buf ns cs last extra rs room narrow portions all before e =
    let header = encode_uint32 (length message) in
    let full = length-append header message in
    let four = length-encode_uint32 (length message) in
    let sent_all : 0 + sum ns ≡ length (header ++ message) = omega arith in
    (
      header,
      send_from_complete (header ++ message) 0 ns portions sent_all
          ∙ ap (λ k. send_returns (k % 2 ^ 32) (header ++ message)) (omega arith),
      four,
      recv_all-framed message garbage buf cs last extra rs room narrow before e,
    )

recv_from_closed :
    (n total k : ℕ) (buf : Bytes)
    → total < n
    → recv_from n total buf (replicate k (received [])) ≡ receiving buf
unfolding recv_from
recv_from_closed n total zero buf h = ground arith
recv_from_closed n total (suc k) buf h =
    let more : ltb total n ≡ true = ground arith in
    let stays : total + 0 ≡ total = omega arith in
    rw (recv_from, more, stays, append-nil buf) (recv_from_closed n total k buf h)

recv_from_part :
    (n k : ℕ) (buf part : Bytes)
    → length part < n
    → recv_from n 0 buf (received part ∷ replicate k (received [])) ≡ receiving (buf ++ part)
unfolding recv_from
recv_from_part n k buf part h =
    let more : ltb 0 n ≡ true = ground arith in
    rw (recv_from, more) (recv_from_closed n (0 + length part) k (buf ++ part) (omega arith))

-- When the peer closes the connection in the middle of a message, RecvAll does not return: whatever
-- came of the message before, however often recv reports the end of the stream, the loop goes on.
pub recv_all_closed :
    (header garbage buf part : Bytes) (k : ℕ)
    → length header ≡ 4
    → length garbage ≡ 4
    → length part < decode_uint32 header
    → recv_all garbage buf (received header ∷ received part ∷ replicate k (received []))
      ≡ receiving (buf ++ part)
unfolding recv_all
recv_all_closed header garbage buf part k four room short =
    let rest : List Received = received part ∷ replicate k (received []) in
    ap (λ l. recv_from (decode_uint32 l) 0 buf rest) (header_alone header garbage four room)
    ∙ recv_from_part (decode_uint32 header) k buf part short
