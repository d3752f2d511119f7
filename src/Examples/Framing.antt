-- ===== src/Examples/Framing.antt =====
-- Two requests on the wire, cut in the middle of a length and of a body.
use angry_balls.Base.{ℕ, List, [], ◌∷◌, ◌++◌, map, false, Option, some, ◌≡◌, refl, arith, ◌≢◌}
use mathlib.Core.List.{flatten}
use angry_balls.Bytes.{Bytes, encode_uint32}
use angry_balls.Mio.Reader.{received, would_block, returns}
use angry_balls.Server.Wiring.{handle_all, read_connection}
use angry_balls.Server.Wiring.Delivery.{read_connection-get_response}
use angry_balls.Server.Framing.{State, initial, process_data_chunk, get_response}
use angry_balls.Server.Framing.Spec.{in_length, read}
use angry_balls.Server.Framing.Refinement.{Shows, view, process_data_chunk-Shows, initial-IsValid}
use angry_balls.Server.Framing.RoundTrip.{feed, feed-get_response}

abbrev requests : List Bytes
requests = (7 ∷ 8 ∷ []) ∷ (9 ∷ []) ∷ []

abbrev cut : List Bytes
cut = (2 ∷ 0 ∷ []) ∷ (0 ∷ 0 ∷ 7 ∷ []) ∷ (8 ∷ 1 ∷ 0 ∷ 0 ∷ 0 ∷ 9 ∷ []) ∷ []

nonempty : (b : ℕ) (bs : Bytes) → (b ∷ bs) ≢ []
nonempty b bs = λ e. cc

feed-get_response_example :
    Shows (feed initial cut) (record { messages = requests; reader = in_length [] })
unfolding get_response encode_uint32 flatten
feed-get_response_example =
    feed-get_response requests cut
      ((nonempty 7 (8 ∷ []), omega arith), ((nonempty 9 [], omega arith), tt)) refl

-- A handler that keeps what it gets.
abbrev keeps : Bytes → List Bytes → Option (List Bytes)
keeps m ms = some (ms ++ m ∷ [])

read_connection-get_response_example :
    (s : State) × (read_connection keeps (initial, []) (map received cut ++ would_block ∷ [])
      ≡ returns false (s, requests))
    × (view s ≡ in_length [])
unfolding get_response encode_uint32 flatten handle_all
read_connection-get_response_example =
    read_connection-get_response keeps requests cut [] requests
      ((nonempty 7 (8 ∷ []), omega arith), ((nonempty 9 [], omega arith), tt))
      (omega arith, (omega arith, (omega arith, tt))) refl refl

process_data_chunk-Shows_example :
    Shows
      (process_data_chunk initial (1 ∷ 0 ∷ 0 ∷ 0 ∷ 9 ∷ 0 ∷ []))
      (read (view initial) (1 ∷ 0 ∷ 0 ∷ 0 ∷ 9 ∷ 0 ∷ []))
process_data_chunk-Shows_example =
    process_data_chunk-Shows initial (1 ∷ 0 ∷ 0 ∷ 0 ∷ 9 ∷ 0 ∷ []) initial-IsValid
