-- ===== src/Server/Framing/Spec.antt =====
-- What the framing promises, byte by byte: four bytes of length, then as many bytes of message.
use angry_balls.Base.{
  ℕ, suc, ◌+◌, ◌<◌, List, [], ◌∷◌, ◌++◌, length, length-append, ltb, ◌==◌, if◌then◌else◌, ◌≡◌, refl,
  append_assoc, append-nil, arith,
}
use angry_balls.Bytes.{Bytes, decode_uint32}
use angry_balls.Server.Framing.{sign_extend, max_size}

-- What has been read of a length or of a message; `refused` is a length that no vector can have.
pub data Reader : Type 0 where
  in_length : Bytes → Reader
  in_message : ℕ → Bytes → Reader
  refused : Reader

pub record Reading : Type 0 where
  pub messages : List Bytes
  pub reader : Reader

abbrev pub quiet : Reader → Reading
quiet r = record { messages = []; reader = r }

unfoldable pub open_message : ℕ → Reader
open_message size = if ltb max_size size then refused else in_message size []

add_length : Bytes → Reader
unfolding open_message
add_length bytes =
    if length bytes == 4 then open_message (sign_extend (decode_uint32 bytes)) else in_length bytes

add_message : ℕ → Bytes → Reading
add_message size bytes =
    if length bytes == size
    then record { messages = bytes ∷ []; reader = in_length [] }
    else quiet (in_message size bytes)

-- An empty message is complete before its first byte, and is handed over when the next one comes.
unfoldable pub read_byte : Reader → ℕ → Reading
unfolding add_length add_message
read_byte (in_length bytes) b = quiet (add_length (bytes ++ b ∷ []))
read_byte (in_message size bytes) b =
    if size == 0
    then record { messages = [] ∷ []; reader = add_length (b ∷ []) }
    else add_message size (bytes ++ b ∷ [])
read_byte refused b = quiet refused

abbrev after : List Bytes → Reading → Reading
after messages r = record r { messages = messages ++ r.messages }

unfoldable pub read : Reader → Bytes → Reading
read r [] = quiet r
read r (b ∷ bs) = let first = read_byte r b in after first.messages (read first.reader bs)

-- Reading is incremental.
pub read-append :
    (r : Reader) (xs ys : Bytes)
    → read r (xs ++ ys) ≡ record {
      messages = (read r xs).messages ++ (read (read r xs).reader ys).messages;
      reader = (read (read r xs).reader ys).reader;
    }
unfolding read
read-append r [] ys = refl
read-append r (b ∷ xs) ys = rw (read-append (read_byte r b).reader xs ys) (rw append_assoc refl)

-- Bytes that complete nothing are kept.
pub read-in_length :
    (c xs : Bytes) → length c + length xs < 4 → read (in_length c) xs ≡ quiet (in_length (c ++ xs))
unfolding read read_byte
read-in_length c [] h = rw append-nil
read-in_length c (b ∷ xs) h =
    ground
      (arith, length-append c (b ∷ []), read-in_length (c ++ b ∷ []) xs, append_assoc c (b ∷ []) xs)

pub read-in_length_full :
    (c : Bytes) (b : ℕ) (xs : Bytes)
    → length c + suc (length xs) ≡ 4
    → read (in_length c) (b ∷ xs) ≡ quiet (open_message (sign_extend (decode_uint32 (c ++ b ∷ xs))))
unfolding read read_byte
read-in_length_full c b [] h = ground (arith, length-append c (b ∷ []))
read-in_length_full c b (x ∷ xs) h = ground (
  arith,
  length-append c (b ∷ []),
  read-in_length_full (c ++ b ∷ []) x xs,
  append_assoc c (b ∷ []) (x ∷ xs),
)

pub read-in_message :
    (n : ℕ) (c xs : Bytes)
    → length c + length xs < n
    → read (in_message n c) xs ≡ quiet (in_message n (c ++ xs))
unfolding read read_byte
read-in_message n c [] h = rw append-nil
read-in_message n c (b ∷ xs) h = ground (
  arith,
  length-append c (b ∷ []),
  read-in_message n (c ++ b ∷ []) xs,
  append_assoc c (b ∷ []) xs,
)

pub read-in_message_full :
    (n : ℕ) (c : Bytes) (b : ℕ) (xs : Bytes)
    → length c + suc (length xs) ≡ n
    → read (in_message n c) (b ∷ xs)
      ≡ record { messages = (c ++ b ∷ xs) ∷ []; reader = in_length [] }
unfolding read read_byte
read-in_message_full n c b [] h = ground (arith, length-append c (b ∷ []))
read-in_message_full n c b (x ∷ xs) h = ground (
  arith,
  length-append c (b ∷ []),
  read-in_message_full n (c ++ b ∷ []) x xs,
  append_assoc c (b ∷ []) (x ∷ xs),
)

pub read-in_message_empty :
    (b : ℕ) (bs : Bytes)
    → read (in_message 0 []) (b ∷ bs) ≡ record {
      messages = [] ∷ (read (in_length []) (b ∷ bs)).messages;
      reader = (read (in_length []) (b ∷ bs)).reader;
    }
unfolding read read_byte
read-in_message_empty b bs = refl

pub read-refused : (xs : Bytes) → read refused xs ≡ quiet refused
unfolding read read_byte
read-refused [] = refl
read-refused (b ∷ xs) = rw (read-refused xs)
