-- ===== src/Web/Viewer/Stream/Reading.antt =====
-- A message that is read whole, and one of which too much is read.
use mathlib.Core.List.{flatten}
use angry_balls.Base.{
  ℕ, suc, ◌+◌, ◌^◌, ◌<◌, ◌≤◌, List, [], ◌∷◌, ◌++◌, All, map, drop, take_append, drop_all,
  length-drop, append-nil, append_assoc, replicate, length, length-append, length-replicate, ltb,
  leb, ◌≡◌, refl, sym, ap, ◌∙◌, true, false, arith, if◌then◌else◌,
}
use native.Mathlib.Decide.{dec_le}
use angry_balls.Bytes.{
  Bytes, encode_uint32, decode_uint32, length-encode_uint32, decode_uint32-encode_uint32,
}
use angry_balls.Web.Viewer.Stream.{
  Read, got, interrupted, failed, read_done, overrun, write_at, recv_buf_from, recv_buf,
  receive_full_message,
}

recv_buf_from_end :
    (n read_pos : ℕ) (data_ : Bytes) (rs : List Read)
    → n ≤ read_pos
    → recv_buf_from n read_pos data_ rs ≡ read_done data_ rs
unfolding recv_buf_from
recv_buf_from_end n read_pos data_ [] h = ground arith
recv_buf_from_end n read_pos data_ (got [] ∷ rs) h = ground arith
recv_buf_from_end n read_pos data_ (got (b ∷ bs) ∷ rs) h = ground arith
recv_buf_from_end n read_pos data_ (interrupted ∷ rs) h = ground arith
recv_buf_from_end n read_pos data_ (failed ∷ rs) h = ground arith

drop_plus : (xs ys : Bytes) (k : ℕ) → drop (length xs + k) (xs ++ ys) ≡ drop k ys
drop_plus [] ys k = ap (λ m. drop m ys) (omega arith)
drop_plus (x ∷ xs) ys k =
    let next : suc (length xs) + k ≡ suc (length xs + k) = omega arith in
    rw (next) (drop_plus xs ys k)

-- A write behind `xs`, which are there already.
write_at-append :
    (xs bs ys : Bytes) → write_at (length xs) bs (xs ++ ys) ≡ (xs ++ bs) ++ drop (length bs) ys
write_at-append xs bs ys =
    rw (take_append xs ys, drop_plus xs ys (length bs), append_assoc xs bs (drop (length bs) ys))
      refl

-- A call that brings bytes which have room.
recv_buf_from_got :
    (n : ℕ) (xs bs ys : Bytes) (rs : List Read)
    → 0 < length bs
    → length xs + length bs ≤ n
    → recv_buf_from n (length xs) (xs ++ ys) (got bs ∷ rs)
      ≡ recv_buf_from n (length (xs ++ bs)) ((xs ++ bs) ++ drop (length bs) ys) rs
unfolding recv_buf_from
recv_buf_from_got n xs [] ys rs h k = absurd (omega arith)
recv_buf_from_got n xs (b ∷ bs) ys rs h k =
    let more : ltb (length xs) n ≡ true = ground arith in
    let fits : ltb n (length xs + length (b ∷ bs)) ≡ false = ground arith in
    rw (recv_buf_from, more, fits, write_at-append xs (b ∷ bs) ys, sym (length-append xs (b ∷ bs)))
      refl

recv_buf_from_overrun :
    (n read_pos : ℕ) (data_ bs : Bytes) (rs : List Read)
    → read_pos < n
    → n < read_pos + length bs
    → recv_buf_from n read_pos data_ (got bs ∷ rs) ≡ overrun
unfolding recv_buf_from
recv_buf_from_overrun n read_pos data_ [] rs h k = absurd (omega arith)
recv_buf_from_overrun n read_pos data_ (b ∷ bs) rs h k = ground arith

-- The calls go on until the last of them reaches `n`; one that goes beyond writes past the end.
recv_buf_from_chunks :
    (n : ℕ) (xs ys : Bytes) (cs : List Bytes) (last : Bytes) (rs : List Read)
    → length xs + length ys ≡ n
    → All (λ c. 0 < length c) cs
    → length xs + length (flatten cs) < n
    → n ≤ length xs + length (flatten cs ++ last)
    → recv_buf_from n (length xs) (xs ++ ys) (map got cs ++ got last ∷ rs) ≡ (
        if leb (length xs + length (flatten cs ++ last)) n
        then read_done (xs ++ (flatten cs ++ last)) rs
        else overrun)
unfolding flatten
recv_buf_from_chunks n xs ys [] last rs room _ h k = elim (dec_le (length xs + length last) n) [
  | yes fits ↦
      let test : leb (length xs + length last) n ≡ true = ground arith in
      let end : n ≤ length (xs ++ last) = omega (arith, length-append xs last) in
      let full =
        recv_buf_from_end n (length (xs ++ last)) ((xs ++ last) ++ drop (length last) ys) rs end in
      rw
        (
          test,
          recv_buf_from_got n xs last ys rs (omega arith) fits,
          full,
          drop_all ys (length last) (omega arith),
          append-nil (xs ++ last),
        )
        refl
  | no over ↦
      let test : leb (length xs + length last) n ≡ false = ground arith in
      rw
        (
          test,
          recv_buf_from_overrun n (length xs) (xs ++ ys) last rs (omega arith)
              (omega (arith, over)),
        )
        refl
]
recv_buf_from_chunks n xs ys (c ∷ cs) last rs room (some_bytes, cs_bytes) h k =
    let rest = flatten cs ++ last in
    let split = length-append c (flatten cs) in
    let whole = length-append c rest in
    let assoc = append_assoc c (flatten cs) last in
    let longer = length-append xs c in
    let dropped = length-drop (length c) ys in
    let enough : n ≤ length (xs ++ c) + length rest =
      omega (arith, k, whole, ap length assoc, longer) in
    let further =
      recv_buf_from_chunks n (xs ++ c) (drop (length c) ys) cs last rs (omega arith) cs_bytes
        (omega arith) enough in
    let sums : length (xs ++ c) + length rest ≡ length xs + length (c ++ rest) = omega arith in
    rw
      (
        recv_buf_from_got n xs c ys (map got cs ++ got last ∷ rs) some_bytes (omega arith),
        further,
        sums,
        append_assoc xs c rest,
        assoc,
      )
      refl

read_size :
    (header garbage : Bytes) (rs : List Read)
    → length header ≡ 4
    → length garbage ≡ 4
    → recv_buf_from 4 0 garbage (got header ∷ rs) ≡ read_done header rs
read_size header garbage rs four room =
    let end =
      recv_buf_from_end 4 (length header) (header ++ drop (length header) garbage) rs
        (omega arith) in
    recv_buf_from_got 4 [] header garbage rs (omega arith) (omega arith)
    ∙ end
    ∙ ap (λ l. read_done (header ++ l) rs) (drop_all garbage (length header) (omega arith))
    ∙ ap (λ l. read_done l rs) (append-nil header)

read_header :
    (garbage : Bytes) (n : ℕ) (rs : List Read)
    → length garbage ≡ 4
    → n < 2 ^ 32
    → receive_full_message garbage (got (encode_uint32 n) ∷ rs)
      ≡ recv_buf_from n 0 (replicate n 0) rs
unfolding receive_full_message recv_buf
read_header garbage n rs room narrow =
    let first = read_size (encode_uint32 n) garbage rs (length-encode_uint32 n) room in
    let size : decode_uint32 (encode_uint32 n) ≡ n = decode_uint32-encode_uint32 n ∙ omega arith in
    rw (receive_full_message, recv_buf, first, size) refl

-- When a first call brings the four bytes of the length n and the further ones, each of at least a byte,
-- bring bytes of which the last call's are the first to reach n: if these are n bytes, then
-- ReceiveFullMessage gives exactly them; if they are more, since the last call has brought some that
-- follow the message, then it writes past the end of its buffer.
pub receive_full_message_lem :
    (garbage : Bytes) (n : ℕ) (cs : List Bytes) (last : Bytes) (rs : List Read)
    → length garbage ≡ 4
    → n < 2 ^ 32
    → All (λ c. 0 < length c) cs
    → length (flatten cs) < n
    → n ≤ length (flatten cs ++ last)
    → receive_full_message garbage (got (encode_uint32 n) ∷ (map got cs ++ got last ∷ rs))
      ≡ (if leb (length (flatten cs ++ last)) n then read_done (flatten cs ++ last) rs else overrun)
receive_full_message_lem garbage n cs last rs room narrow some_bytes h k =
    let size : length {A = ℕ} [] + length (replicate {A = ℕ} n 0) ≡ n =
      omega (arith, length-replicate {A = ℕ} n 0) in
    let plain : 0 + length (flatten cs ++ last) ≡ length (flatten cs ++ last) = omega arith in
    let before : 0 + length (flatten cs) < n = omega arith in
    let reached : n ≤ 0 + length (flatten cs ++ last) = omega arith in
    read_header garbage n (map got cs ++ got last ∷ rs) room narrow
    ∙ recv_buf_from_chunks n [] (replicate n 0) cs last rs size some_bytes before reached
    ∙ ap (λ m. if leb m n then read_done (flatten cs ++ last) rs else overrun) plain
