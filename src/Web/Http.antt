-- ===== src/Web/Http.antt =====
-- src/web-ui-client/http.cpp and webserver.h: requests and responses. Strings are lists of bytes, and
-- `std::string::npos` is the greatest `size_t`.
pub mod Url
pub mod Message
pub mod Serving
use Prim.Native.Char.{Char, code}
use Prim.Native.String.{String, [] as no_chars, ◌∷◌ as char_then}
use angry_balls.Base.{
  ℕ, zero, suc, ◌+◌, ◌-◌, ◌%◌, ◌^◌, List, [], ◌∷◌, Bool, true, false, ◌&&◌, Option, none, some,
  take, drop, length, ltb, ◌==◌, if◌then◌else◌,
}
use angry_balls.Bytes.{Bytes}

abbrev pub npos : ℕ
npos = 2 ^ 64 - 1

abbrev pub size_t : ℕ → ℕ
size_t n = n % 2 ^ 64

-- The bytes of a literal of ASCII characters.
abbrev pub text : String → Bytes
text no_chars = []
text (char_then c s) = code c ∷ text s

abbrev pub starts_with : Bytes → Bytes → Bool
starts_with [] s = true
starts_with (p ∷ ps) [] = false
starts_with (p ∷ ps) (c ∷ s) = (p == c) && starts_with ps s

abbrev pub bytes_eq : Bytes → Bytes → Bool
bytes_eq [] [] = true
bytes_eq [] (c ∷ s) = false
bytes_eq (b ∷ bs) [] = false
bytes_eq (b ∷ bs) (c ∷ s) = (b == c) && bytes_eq bs s

-- The first place of a pattern of at least a byte, from the front on.
unfoldable pub find_from : Bytes → Bytes → ℕ → ℕ
find_from pattern [] pos = npos
find_from pattern (c ∷ s) pos =
    let later = find_from pattern s (suc pos) in if starts_with pattern (c ∷ s) then pos else later

-- `s.find(pattern, start)`.
unfoldable pub find : Bytes → Bytes → ℕ → ℕ
unfolding find_from
find pattern s start = find_from pattern (drop start s) start

-- `s.substr(pos, count)`, which throws past the end of the string.
unfoldable pub substr : Bytes → ℕ → ℕ → Option Bytes
substr s pos count = if ltb (length s) pos then none else some (take count (drop pos s))

infixl 5 ◌>>=◌
abbrev pub ◌>>=◌ : {A B : Type 0} → Option A → (A → Option B) → Option B
none >>= f = none
some a >>= f = f a
