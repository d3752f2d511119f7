-- ===== src/Protocol/Names.antt =====
-- lib/protocol/string_conversion.cpp: the names of the message types.
use Prim.Native.String.{String}
use text.Mathlib.Text.{◌==◌ as str_eq}
use text.Mathlib.TextEquality.{eq_iff}
use angry_balls.Base.{
  ◌-◌, ◌≤◌, ◌↔◌, sym, ap, ◌∙◌, Bool-cases, Option-cases, inl, inr, ℕ, zero, suc, ◌+◌, List, [], ◌∷◌,
  Option, none, some, get_elem?, ◌≡◌, refl, if◌then◌else◌, arith,
}
use angry_balls.Protocol.{
  MessageType, client_subscribe_request, client_subscribe_result, viewer_subscribe_request,
  viewer_subscribe_result, field_state, turn, finish,
}

-- `static_cast<size_t>(name)`: the enumerators in order.
unfoldable pub index_of : MessageType → ℕ
index_of client_subscribe_request = 0
index_of client_subscribe_result = 1
index_of viewer_subscribe_request = 2
index_of viewer_subscribe_result = 3
index_of field_state = 4
index_of turn = 5
index_of finish = 6

abbrev enumerators : List MessageType
enumerators =
    client_subscribe_request ∷ client_subscribe_result ∷ viewer_subscribe_request
    ∷ viewer_subscribe_result ∷ field_state ∷ turn ∷ finish ∷ []

-- `static_cast<MessageType>(index)`, for an index below the count of the enumerators.
unfoldable type_at : ℕ → MessageType
type_at i = elim (get_elem? enumerators i) [ none ↦ finish | some t ↦ t ]

abbrev enum_to_string : List String
enum_to_string =
    "CLI_SUB_REQUEST" ∷ "CLI_SUB_RESULT" ∷ "VIEW_SUB_REQUEST" ∷ "VIEW_SUB_RESULT" ∷ "STATE" ∷ "TURN"
    ∷ "FINISH" ∷ []

-- `enum_to_string_[index]`; no enumerator is out of range.
unfoldable pub to_string : MessageType → String
unfolding index_of
to_string name = elim (get_elem? enum_to_string (index_of name)) [ none ↦ "" | some s ↦ s ]

-- The loop of `TryFromString`, from the index `i` on.
unfoldable pub find_index : String → ℕ → List String → Option ℕ
find_index s i [] = none
find_index s i (t ∷ ts) = let rest = find_index s (i + 1) ts in if str_eq s t then some i else rest

unfoldable pub try_from_string : String → Option MessageType
unfolding find_index type_at
try_from_string s = elim (find_index s 0 enum_to_string) [ none ↦ none | some i ↦ some (type_at i) ]

pub find_index_found :
    (s : String) (i : ℕ) (ts : List String) {j : ℕ}
    → find_index s i ts ≡ some j
    → (i ≤ j) × (get_elem? ts (j - i) ≡ some s)
unfolding find_index
find_index_found s i [] h = cc
find_index_found s i (t ∷ ts) {j} h = elim (Bool-cases (str_eq s t)) [
  | inl same ↦ let here : i ≡ j = ground arith in (omega arith, ground (arith, (eq_iff s t).0 same))
  | inr other ↦
      let (later, found) = find_index_found s (i + 1) ts {j = j} (ground arith) in
      let shift : j - i ≡ suc (j - (i + 1)) = omega arith in (omega arith, rw shift found)
]

at_names : (i : ℕ) {s : String} → get_elem? enum_to_string i ≡ some s → to_string (type_at i) ≡ s
unfolding to_string type_at index_of
at_names zero h = cc
at_names (suc zero) h = cc
at_names (suc (suc zero)) h = cc
at_names (suc (suc (suc zero))) h = cc
at_names (suc (suc (suc (suc zero)))) h = cc
at_names (suc (suc (suc (suc (suc zero))))) h = cc
at_names (suc (suc (suc (suc (suc (suc zero)))))) h = cc
at_names (suc (suc (suc (suc (suc (suc (suc i))))))) h = cc

pub try_from_string-to_string : (t : MessageType) → try_from_string (to_string t) ≡ some t
unfolding try_from_string to_string find_index type_at index_of
try_from_string-to_string client_subscribe_request = refl
try_from_string-to_string client_subscribe_result = refl
try_from_string-to_string viewer_subscribe_request = refl
try_from_string-to_string viewer_subscribe_result = refl
try_from_string-to_string field_state = refl
try_from_string-to_string turn = refl
try_from_string-to_string finish = refl

-- A string is read as a message type just when it is that type's name: every name is read back, and
-- no other string is accepted.
pub try_from_string_iff :
    (s : String) (t : MessageType) → (try_from_string s ≡ some t) ↔ (s ≡ to_string t)
unfolding try_from_string
try_from_string_iff s t = (only, λ e. rw e (try_from_string-to_string t))
  where
    only : try_from_string s ≡ some t → s ≡ to_string t
    only h = elim (Option-cases (find_index s 0 enum_to_string)) [
      | inl missing ↦ ground arith
      | inr (i, found) ↦
          let is_type : type_at i ≡ t = ground arith in
          let (_, at) = find_index_found s 0 enum_to_string found in
          let start : i - 0 ≡ i = omega arith in
          sym (at_names i (rw (start) at (at))) ∙ ap to_string is_type
    ]
