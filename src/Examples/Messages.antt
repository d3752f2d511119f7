-- ===== src/Examples/Messages.antt =====
-- A JSON library to build and parse with, and a field's state on its way to a client.
use Prim.Native.String.{String}
use text.Mathlib.Text.{◌==◌ as str_eq}
use angry_balls.Base.{
  ℕ, List, [], ◌∷◌, Bool, false, Option, none, some, ◌≡◌, refl, ap, ◌↔◌, if◌then◌else◌, arith,
}
use angry_balls.Base.Int.{ℤ}
use angry_balls.Double.Fixed.{fixed}
use angry_balls.Protocol.{field_state_message, turn}
use angry_balls.Protocol.Build.{build, build_json_message}
use angry_balls.Protocol.Json.{Json, IsJson, Lookup, found, missing, misuse, last_assigned}
use angry_balls.Protocol.Names.{to_string, try_from_string, try_from_string_iff}
use angry_balls.Protocol.Parse.{parse_json_message}
use angry_balls.Protocol.RoundTrip.{arrives, parse-build_json_message}
use angry_balls.Examples.Data.{field}

mutual
  pub data Value : Type 0 where
    text_value : String → Value
    uint_value : ℕ → Value
    real_value : ℤ → Value
    object_value : Members → Value
    array_value : Values → Value

  pub data Members : Type 0 where
    no_members : Members
    member_then : String → Value → Members → Members

  pub data Values : Type 0 where
    no_values : Values
    value_then : Value → Values → Values

abbrev pub members_of : List (String × Value) → Members
members_of [] = no_members
members_of ((k, v) ∷ fields) = member_then k v (members_of fields)

abbrev pub values_of : List Value → Values
values_of [] = no_values
values_of (v ∷ vs) = value_then v (values_of vs)

abbrev pub list_of : Values → List Value
list_of no_values = []
list_of (value_then v vs) = v ∷ list_of vs

abbrev pub look_up : Members → String → Lookup Value → Lookup Value
look_up no_members key before = before
look_up (member_then k v ms) key before = look_up ms key (if str_eq key k then found v else before)

abbrev pub get_of : Value → String → Lookup Value
get_of (object_value ms) key = look_up ms key missing
get_of _ key = misuse

abbrev pub is_text_of : Value → String → Bool
is_text_of (text_value s) t = str_eq s t
is_text_of _ t = false

abbrev pub as_string_of : Value → Option String
as_string_of (text_value s) = some s
as_string_of _ = none

abbrev pub as_uint_of : Value → Option ℕ
as_uint_of (uint_value n) = some n
as_uint_of _ = none

abbrev pub as_double_of : Value → Option ℤ
as_double_of (real_value x) = some x
as_double_of _ = none

abbrev pub elements_of : Value → Option (List Value)
elements_of (array_value vs) = some (list_of vs)
elements_of _ = none

-- A library of which one value has a text.
abbrev pub library : Value → Json ℤ Value
library sample = record {
  text = text_value;
  uint = uint_value;
  real = real_value;
  assigned = λ fields. object_value (members_of fields);
  appended = λ vs. array_value (values_of vs);
  get = get_of;
  is_text = is_text_of;
  as_string = as_string_of;
  as_uint = as_uint_of;
  as_double = as_double_of;
  elements = elements_of;
  write = λ v. "{…}";
  parse = λ s. if str_eq s "{…}" then some sample else none;
}

look_up-members_of :
    (fields : List (String × Value)) (key : String) (before : Lookup Value)
    → look_up (members_of fields) key before ≡ last_assigned fields key before
look_up-members_of [] key before = refl
look_up-members_of ((k, v) ∷ fields) key before =
    look_up-members_of fields key (if str_eq key k then found v else before)

list_of-values_of : (vs : List Value) → list_of (values_of vs) ≡ vs
list_of-values_of [] = refl
list_of-values_of (v ∷ vs) = ap (λ ws. v ∷ ws) (list_of-values_of vs)

pub library-IsJson : (sample : Value) → IsJson (library sample)
library-IsJson sample = record {
  get-assigned = λ fields key. look_up-members_of fields key missing;
  elements-appended = λ vs. ap some (list_of-values_of vs);
  is_text-text = λ s t. refl;
  as_string-text = λ s. refl;
  as_uint-uint = λ n h. refl;
  as_double-real = λ x. refl;
}

-- The value of the state, which the building does not read from the library's texts.
abbrev state_value : Value
state_value = build (library (text_value "")) (field_state_message field)

parse-build_json_message_example :
    parse_json_message
      (library state_value)
      (build_json_message (library state_value) (field_state_message field))
    ≡ arrives (field_state_message field)
unfolding build_json_message
parse-build_json_message_example =
    parse-build_json_message (library state_value) (library-IsJson state_value)
      (field_state_message field) (omega arith, (omega arith, tt)) refl

try_from_string_iff_example : (try_from_string "TURN" ≡ some turn) ↔ ("TURN" ≡ to_string turn)
try_from_string_iff_example = try_from_string_iff "TURN" turn
