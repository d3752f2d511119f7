-- ===== src/Web/Http/Message/Kept.antt =====
-- Which headers of a response are kept, and what their names are.
use angry_balls.Base.{
  List, [], ◌∷◌, ◌++◌, Bool-cases, All, inl, inr, ◌≡◌, refl, arith, if◌then◌else◌,
}
use angry_balls.Bytes.{Bytes}
use angry_balls.Web.Http.{text, bytes_eq}
use angry_balls.Web.Http.Message.{HttpHeader, tolower, normalize_name, http_header}
use angry_balls.Web.Http.Message.Lines.{normalized}

-- The headers but those for the length.
abbrev pub kept : List HttpHeader → List HttpHeader
kept [] = []
kept (h ∷ hs) = if bytes_eq h.name (text "content-length") then kept hs else (h ∷ kept hs)

-- The headers that bear a name.
abbrev pub named : Bytes → List HttpHeader → List HttpHeader
named name [] = []
named name (h ∷ hs) =
    let others = named name hs in if bytes_eq h.name name then h ∷ others else others

-- A name is in lower case, as the constructor of a header leaves it.
abbrev pub IsLower : HttpHeader → Type 0
IsLower h = normalize_name h.name ≡ h.name

normalize_name-twice : (name : Bytes) → normalize_name (normalize_name name) ≡ normalize_name name
unfolding normalize_name
normalize_name-twice [] = refl
normalize_name-twice (c ∷ name) =
    let settled : tolower (tolower c) ≡ tolower c = ground arith in
    rw (settled, normalize_name-twice name) refl

pub http_header-IsLower : (name value : Bytes) → IsLower (http_header name value)
unfolding http_header
http_header-IsLower name value = normalize_name-twice name

pub normalized_of_lower : (hs : List HttpHeader) → All IsLower hs → normalized hs ≡ hs
unfolding http_header
normalized_of_lower [] _ = refl
normalized_of_lower (h ∷ hs) (low, lows) = rw (low, normalized_of_lower hs lows) refl

pub kept-IsLower : (hs : List HttpHeader) → All IsLower hs → All IsLower (kept hs)
kept-IsLower [] _ = tt
kept-IsLower (h ∷ hs) (low, lows) = elim (Bool-cases (bytes_eq h.name (text "content-length"))) [
  | inl e ↦ rw e (kept-IsLower hs lows)
  | inr e ↦ rw e (low, kept-IsLower hs lows)
]

pub named-kept : (hs : List HttpHeader) → named (text "content-length") (kept hs) ≡ []
named-kept [] = refl
named-kept (h ∷ hs) = elim (Bool-cases (bytes_eq h.name (text "content-length"))) [
  | inl e ↦ rw e (named-kept hs)
  | inr e ↦ rw (e, e) (named-kept hs)
]

pub named-append :
    (name : Bytes) (hs gs : List HttpHeader)
    → named name (hs ++ gs) ≡ named name hs ++ named name gs
named-append name [] gs = refl
named-append name (h ∷ hs) gs = elim (Bool-cases (bytes_eq h.name name)) [
  | inl e ↦ rw (e, named-append name hs gs) refl
  | inr e ↦ rw (e, named-append name hs gs) refl
]
