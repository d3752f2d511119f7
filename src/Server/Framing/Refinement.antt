-- ===== src/Server/Framing/Refinement.antt =====
-- The buffered reader implements the byte-by-byte one, whatever the chunks.
mod View
mod Copies
pub use View.{view, IsValid, Ends, Shows}
use View.{view_in, IsValidIn}
use Copies.{length-copy_at, take-copy_at}
use native.Mathlib.Decide.{dec_lt}
use angry_balls.Base.{
  ℕ, zero, suc, ◌+◌, ◌-◌, ◌*◌, ◌≤◌, ◌<◌, [], ◌∷◌, ◌++◌, length, length-append, length-take,
  length-drop, take, drop, take-append-drop, take-length_append, drop-length_append, drop_all,
  append-nil, ltb, ◌≡◌, refl, ap, ◌⊎◌, inl, inr, false, replicate, length-replicate, Bool-cases,
  arith,
}
use angry_balls.Bytes.{Bytes, decode_uint32}
use angry_balls.Server.Framing.{
  StateType, reading_length, reading_data, State, initial, copy_at, store_portion, start_message,
  Result, ok, sign_extend, max_size, follow, emit, length_error, assertion_failed, out_of_fuel,
  Outcome, loop, dispatch, process_data_chunk,
}
use angry_balls.Server.Framing.Spec.{
  Reader, in_length, in_message, refused, Reading, read, read-append, open_message, read-in_length,
  read-in_length_full, read-in_message, read-in_message_full, read-in_message_empty, read-refused,
}

abbrev measure_in : StateType → Bytes → ℕ
measure_in reading_length xs = 2 * length xs
measure_in reading_data xs = 2 * length xs + 1

abbrev Loops : ℕ → Type 0
Loops f =
    (s : State) (xs : Bytes)
    → IsValid s
    → measure_in s.state xs ≤ f
    → Shows (loop f s xs) (read (view s) xs)

-- The chunk ends inside what is being read.
length_part-Shows :
    (k : State → Bytes → Outcome) (s : State) (xs : Bytes)
    → s.state ≡ reading_length
    → IsValidIn reading_length s
    → length xs + s.read_length < 4
    → Shows (dispatch k reading_length s xs) (read (view_in reading_length s) xs)
unfolding dispatch store_portion
length_part-Shows k s xs e v h = ground (
  arith,
  read-in_length (take s.read_length s.buffer) xs,
  length-take s.read_length s.buffer,
  take-copy_at s.buffer s.read_length xs (s.read_length + length xs),
  length-copy_at s.buffer s.read_length xs,
)

data_part-Shows :
    (k : State → Bytes → Outcome) (s : State) (xs : Bytes)
    → s.state ≡ reading_data
    → IsValidIn reading_data s
    → length xs + s.read_length < s.message_length
    → Shows (dispatch k reading_data s xs) (read (view_in reading_data s) xs)
unfolding dispatch store_portion
data_part-Shows k s xs e v h = ground (
  arith,
  read-in_message s.message_length (take s.read_length s.buffer) xs,
  length-take s.read_length s.buffer,
  take-copy_at s.buffer s.read_length xs (s.read_length + length xs),
  length-copy_at s.buffer s.read_length xs,
)

-- The chunk brings the last byte of what is being read: `b ∷ ys` completes it, and `zs` is left.
module _ (f : ℕ) (ih : Loops f) (s : State) (b : ℕ) (ys zs : Bytes) where
  abbrev completed : Bytes
  completed = copy_at s.buffer s.read_length (b ∷ ys)

  follow-Shows :
      (full : Bytes)
      → length full ≡ 4
      → s.message_length ≡ 4
      → 2 * length zs + 1 ≤ f
      → Shows
          (follow (loop f) (start_message s full) zs)
          (read (open_message (sign_extend (decode_uint32 full))) zs)
  unfolding follow start_message open_message
  follow-Shows full l m h =
      let size = sign_extend (decode_uint32 full) in
      elim (Bool-cases (ltb max_size size)) [
        | inl big ↦ ground (arith, read-refused zs)
        | inr fits ↦ ground (
          arith,
          length-replicate {A = ℕ} size 0,
          ih
              (record s {
                state = reading_data;
                message_length = size;
                read_length = 0;
                buffer = replicate size 0;
              })
              zs,
        )
      ]

  -- The round takes `b ∷ ys` off the chunk.
  module _ (room : s.read_length + suc (length ys) ≡ s.message_length) where
    taken : take (s.message_length - s.read_length) (b ∷ (ys ++ zs)) ≡ b ∷ ys
    taken = take-length_append (b ∷ ys) zs (s.message_length - s.read_length) (omega arith)

    left : drop (s.message_length - s.read_length) (b ∷ (ys ++ zs)) ≡ zs
    left = drop-length_append (b ∷ ys) zs (s.message_length - s.read_length) (omega arith)

    not_part : ltb (length (b ∷ (ys ++ zs)) + s.read_length) s.message_length ≡ false
    not_part = ground (arith, length-append ys zs)

    dispatch_length :
        dispatch (loop f) reading_length s (b ∷ (ys ++ zs))
        ≡ follow (loop f) (start_message s completed) zs
    unfolding dispatch
    dispatch_length = rw (not_part, taken, left)

    dispatch_data :
        dispatch (loop f) reading_data s (b ∷ (ys ++ zs)) ≡ emit completed (loop f initial zs)
    unfolding dispatch
    dispatch_data = rw (not_part, taken, left)

    whole : length s.buffer ≡ s.message_length → completed ≡ take s.read_length s.buffer ++ b ∷ ys
    whole l = rw (drop_all s.buffer (s.read_length + suc (length ys)) (omega arith), append-nil)

  length_full-Shows :
      IsValidIn reading_length s
      → s.read_length + suc (length ys) ≡ 4
      → 2 * length zs + 1 ≤ f
      → Shows
          (dispatch (loop f) reading_length s (b ∷ (ys ++ zs)))
          (read (view_in reading_length s) (b ∷ (ys ++ zs)))
  length_full-Shows v e h =
      let room : s.read_length + suc (length ys) ≡ s.message_length = omega arith in
      let old = take s.read_length s.buffer in
      rw
        (
          dispatch_length room,
          read-append (in_length old) (b ∷ ys) zs,
          read-in_length_full old b ys (omega (arith, length-take s.read_length s.buffer)),
          ← whole room (omega arith),
        )
        (follow-Shows completed (omega (arith, length-copy_at s.buffer s.read_length (b ∷ ys)))
          (v.0) h)

  data_full-Shows :
      IsValidIn reading_data s
      → s.read_length + suc (length ys) ≡ s.message_length
      → 2 * length zs ≤ f
      → Shows
          (dispatch (loop f) reading_data s (b ∷ (ys ++ zs)))
          (read (view_in reading_data s) (b ∷ (ys ++ zs)))
  unfolding emit
  data_full-Shows v room h =
      let old = take s.read_length s.buffer in
      rw
        (
          dispatch_data room,
          read-append (in_message s.message_length old) (b ∷ ys) zs,
          read-in_message_full s.message_length old b ys
              (omega (arith, length-take s.read_length s.buffer)),
          ← whole room v.0,
        )
        (ground (arith, ih initial zs))

data_empty-Shows :
    (f : ℕ) (s : State) (xs : Bytes) (b : ℕ) (bs : Bytes)
    → Loops f
    → xs ≡ b ∷ bs
    → length s.buffer ≡ 0
    → s.message_length ≡ 0
    → s.read_length ≡ 0
    → 2 * length xs ≤ f
    → Shows (dispatch (loop f) reading_data s xs) (read (in_message 0 []) xs)
unfolding dispatch emit
data_empty-Shows f s xs b bs ih e l m r h =
    let handed : copy_at s.buffer 0 [] ≡ [] = drop_all s.buffer 0 (omega arith) in
    rw (e, read-in_message_empty b bs, ← e, m, r) (ground (arith, handed, ih initial xs))

dispatch-Shows :
    (f : ℕ) (m : StateType) (s : State) (b : ℕ) (bs : Bytes)
    → Loops f
    → s.state ≡ m
    → IsValidIn m s
    → measure_in m (b ∷ bs) ≤ suc f
    → Shows (dispatch (loop f) m s (b ∷ bs)) (read (view_in m s) (b ∷ bs))
dispatch-Shows f reading_length s b bs ih e v h =
    elim (dec_lt (length (b ∷ bs) + s.read_length) 4) [
      | yes part ↦ length_part-Shows (loop f) s (b ∷ bs) e v part
      | no full ↦
          let j = 4 - s.read_length - 1 in
          rw (take-append-drop j bs) at (
            length_full-Shows f ih s b (take j bs) (drop j bs) v (omega (arith, length-take j bs))
              (omega (arith, length-drop j bs)))
    ]
dispatch-Shows f reading_data s b bs ih e (l, inl short) h =
    elim (dec_lt (length (b ∷ bs) + s.read_length) s.message_length) [
      | yes part ↦ data_part-Shows (loop f) s (b ∷ bs) e (l, inl short) part
      | no full ↦
          let j = s.message_length - s.read_length - 1 in
          rw (take-append-drop j bs) at (
            data_full-Shows f ih s b (take j bs) (drop j bs) (l, inl short)
              (omega (arith, length-take j bs)) (omega (arith, length-drop j bs)))
    ]
dispatch-Shows f reading_data s b bs ih e (l, inr (m, r)) h =
    let read_nothing : in_message s.message_length (take s.read_length s.buffer) ≡ in_message 0 [] =
      rw (m, r) refl in
    rw read_nothing (data_empty-Shows f s (b ∷ bs) b bs ih refl (omega arith) m r (omega arith))

loop-Shows : (f : ℕ) → Loops f
unfolding loop read
loop-Shows zero s [] v h = (refl, (refl, v))
loop-Shows zero s (b ∷ bs) v h = absurd (no_fuel s.state h)
  where
    no_fuel : (m : StateType) → measure_in m (b ∷ bs) ≤ 0 → ⊥
    no_fuel reading_length h = omega arith
    no_fuel reading_data h = omega arith
loop-Shows (suc f) s [] v h = (refl, (refl, v))
loop-Shows (suc f) s (b ∷ bs) v h = dispatch-Shows f s.state s b bs (loop-Shows f) refl v h

measure_in-le : (m : StateType) (xs : Bytes) → measure_in m xs ≤ 2 * length xs + 1
measure_in-le reading_length xs = omega arith
measure_in-le reading_data xs = omega arith

-- From a well-formed state a chunk of any length is read to its end within the rounds allowed: the
-- handler gets the messages of the byte-by-byte reader in their order, the state left stands for
-- the reader it left and is well-formed, no assertion fails, and the only other end is the refusal
-- of a length that no vector can have.
pub process_data_chunk-Shows :
    (s : State) (chunk : Bytes)
    → IsValid s
    → Shows (process_data_chunk s chunk) (read (view s) chunk)
unfolding process_data_chunk
process_data_chunk-Shows s chunk v =
    loop-Shows (2 * length chunk + 1) s chunk v (measure_in-le s.state chunk)

pub initial-IsValid : IsValid initial
initial-IsValid = omega arith
