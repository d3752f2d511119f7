-- ===== src/Server/Framing/Refinement/View.antt =====
-- What the reader's state stands for, and when it is well-formed.
use angry_balls.Base.{◌<◌, length, take, ◌≡◌, ◌⊎◌}
use angry_balls.Server.Framing.{
  StateType, reading_length, reading_data, State, Result, ok, length_error, assertion_failed,
  out_of_fuel, Outcome,
}
use angry_balls.Server.Framing.Spec.{Reader, in_length, in_message, refused, Reading}

abbrev pub view_in : StateType → State → Reader
view_in reading_length s = in_length (take s.read_length s.buffer)
view_in reading_data s = in_message s.message_length (take s.read_length s.buffer)

-- What the fields stand for.
abbrev pub view : State → Reader
view s = view_in s.state s

-- The buffer has the size of what is being read, and is not full when a round begins.
abbrev pub IsValidIn : StateType → State → Type 0
IsValidIn reading_length s = (s.message_length ≡ 4) × (s.read_length < 4) × (length s.buffer ≡ 4)
IsValidIn reading_data s =
    (length s.buffer ≡ s.message_length)
    × ((s.read_length < s.message_length) ⊎ ((s.message_length ≡ 0) × (s.read_length ≡ 0)))

abbrev pub IsValid : State → Type 0
IsValid s = IsValidIn s.state s

abbrev pub Ends : Result → Reader → Type 0
Ends (ok s) r = (view s ≡ r) × IsValid s
Ends (length_error s) r = r ≡ refused
Ends (assertion_failed s) r = ⊥
Ends out_of_fuel r = ⊥

abbrev pub Shows : Outcome → Reading → Type 0
Shows o r = (o.handled ≡ r.messages) × Ends o.result r.reader
