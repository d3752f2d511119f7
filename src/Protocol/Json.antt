-- ===== src/Protocol/Json.antt =====
-- What lib/protocol/protocol.cpp uses of the JSON library: values, their reader and their writer.
use Prim.Native.String.{String}
use text.Mathlib.Text.{◌==◌ as str_eq}
use angry_balls.Base.{ℕ, ◌<◌, ◌^◌, List, [], ◌∷◌, Bool, Option, some, ◌≡◌, if◌then◌else◌}

-- `isMember` with `operator[]`; on a value that is neither an object nor null both assert.
pub data Lookup (V : Type 0) : Type 0 where
  found : V → Lookup V
  missing : Lookup V
  misuse : Lookup V

-- What `value[key]` is after the assignments `fields`, made in this order to a null value.
abbrev pub last_assigned : {V : Type 0} → List (String × V) → String → Lookup V → Lookup V
last_assigned [] key before = before
last_assigned ((k, v) ∷ fields) key before =
    last_assigned fields key (if str_eq key k then found v else before)

pub record Json (N V : Type 0) : Type 0 where
  pub text : String → V
  pub uint : ℕ → V
  pub real : N → V
  -- A null value after assignments to its members; one after calls of `append`.
  pub assigned : List (String × V) → V
  pub appended : List V → V
  pub get : V → String → Lookup V
  -- `value == "…"`.
  pub is_text : V → String → Bool
  -- `asString`, which asserts on a number, an array and an object.
  pub as_string : V → Option String
  -- `isConvertibleTo(uintValue)` and `asUInt`; the same of `realValue`, `asDouble`.
  pub as_uint : V → Option ℕ
  pub as_double : V → Option N
  -- `isArray`, `size` and `operator[]`; null is an array without elements.
  pub elements : V → Option (List V)
  -- `FastWriter::write` and `Reader::parse`.
  pub write : V → String
  pub parse : String → Option V

-- A member that was assigned is found, an array has what was appended, and a scalar is read back.
pub record IsJson {N V : Type 0} (j : Json N V) : Type 0 where
  pub get-assigned :
      (fields : List (String × V)) (key : String)
      → j.get (j.assigned fields) key ≡ last_assigned fields key missing
  pub elements-appended : (vs : List V) → j.elements (j.appended vs) ≡ some vs
  pub is_text-text : (s t : String) → j.is_text (j.text s) t ≡ str_eq s t
  pub as_string-text : (s : String) → j.as_string (j.text s) ≡ some s
  pub as_uint-uint : (n : ℕ) → n < 2 ^ 32 → j.as_uint (j.uint n) ≡ some n
  pub as_double-real : (x : N) → j.as_double (j.real x) ≡ some x
