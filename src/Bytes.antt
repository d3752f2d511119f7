-- ===== src/Bytes.antt =====
-- Byte strings, and the 32-bit length that stands in front of each message. The code copies the
-- bytes of a native integer; the host is little-endian.
use angry_balls.Base.{ℕ, ◌+◌, ◌*◌, ◌/◌, ◌%◌, ◌^◌, ◌≡◌, refl, List, [], ◌∷◌, length, arith}

abbrev pub Bytes : Type 0
Bytes = List ℕ

abbrev pub uint32_mod : ℕ
uint32_mod = 2 ^ 32

-- The four bytes of `(uint32_t) n`.
unfoldable pub encode_uint32 : ℕ → Bytes
encode_uint32 n = (n % 256) ∷ (n / 256 % 256) ∷ (n / 2 ^ 16 % 256) ∷ (n / 2 ^ 24 % 256) ∷ []

unfoldable pub decode_uint32 : Bytes → ℕ
decode_uint32 [] = 0
decode_uint32 (b ∷ bs) = b % 256 + 256 * decode_uint32 bs

pub length-encode_uint32 : (n : ℕ) → length (encode_uint32 n) ≡ 4
unfolding encode_uint32
length-encode_uint32 n = refl

pub decode_uint32-encode_uint32 : (n : ℕ) → decode_uint32 (encode_uint32 n) ≡ n % uint32_mod
unfolding encode_uint32 decode_uint32
decode_uint32-encode_uint32 n = omega arith
