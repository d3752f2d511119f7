-- ===== src/Server/Framing/RoundTrip.antt =====
-- A stream of responses, cut into chunks anywhere, is read back as the messages written.
use angry_balls.Base.{
  ℕ, suc, ◌^◌, ◌<◌, ◌/◌, ◌%◌, List, [], ◌∷◌, ◌++◌, length, map, All, ◌≡◌, ◌≢◌, refl, ap, ◌∙◌, subst,
  append_assoc, append-nil, arith,
}
use mathlib.Core.List.{flatten}
use angry_balls.Bytes.{Bytes, encode_uint32, decode_uint32, decode_uint32-encode_uint32}
use angry_balls.Server.Framing.{
  State, initial, Result, ok, length_error, assertion_failed, out_of_fuel, Outcome, stop,
  process_data_chunk, get_response,
}
use angry_balls.Server.Framing.Spec.{
  in_length, in_message, Reading, quiet, read, read-append, open_message, read-in_length_full,
  read-in_message_full, read-refused, read-in_message_empty,
}
use angry_balls.Server.Framing.Refinement.{
  view, IsValid, Ends, Shows, process_data_chunk-Shows, initial-IsValid,
}

resume : (State → Outcome) → List Bytes → Result → Outcome
resume next before (ok s) = record (next s) { handled = before ++ (next s).handled }
resume next before r = record { handled = before; result = r }

-- The chunks of one connection, in the order in which `AsyncReader::read` brings them; the server
-- dies on the first that ends in a fault.
unfoldable pub feed : State → List Bytes → Outcome
unfolding resume
feed s [] = stop (ok s)
feed s (c ∷ cs) = let o = process_data_chunk s c in resume (λ s'. feed s' cs) o.handled o.result

resume-ok :
    (next : State → Outcome) (before : List Bytes) (r : Result) (s' : State)
    → (resume next before r).result ≡ ok s'
    → (s1 : State) × (r ≡ ok s1)
      × ((next s1).result ≡ ok s')
      × ((resume next before r).handled ≡ before ++ (next s1).handled)
unfolding resume
resume-ok next before (ok s1) s' h = (s1, refl, h, refl)
resume-ok next before (length_error s) s' h = cc
resume-ok next before (assertion_failed s) s' h = cc
resume-ok next before out_of_fuel s' h = cc

-- When all chunks are read, the first was, and then the others.
pub feed-ok :
    (s : State) (c : Bytes) (cs : List Bytes) (s' : State)
    → (feed s (c ∷ cs)).result ≡ ok s'
    → (s1 : State) × ((process_data_chunk s c).result ≡ ok s1)
      × ((feed s1 cs).result ≡ ok s')
      × ((feed s (c ∷ cs)).handled ≡ (process_data_chunk s c).handled ++ (feed s1 cs).handled)
unfolding feed
feed-ok s c cs s' h =
    let o = process_data_chunk s c in resume-ok (λ s1. feed s1 cs) o.handled o.result s' h

resume-Shows :
    (next : State → Outcome) (first : Outcome) (r : Reading) (rest : Bytes)
    → Shows first r
    → ((s : State) → IsValid s → Shows (next s) (read (view s) rest))
    → Shows (resume next first.handled first.result) (record {
      messages = r.messages ++ (read r.reader rest).messages;
      reader = (read r.reader rest).reader;
    })
unfolding resume
resume-Shows next first r rest (same, ends) ih = ended first.result ends
  where
    ended :
        (e : Result)
        → Ends e r.reader
        → Shows (resume next first.handled e) (record {
          messages = r.messages ++ (read r.reader rest).messages;
          reader = (read r.reader rest).reader;
        })
    ended (ok s) (v, valid) = rw (← v) (ground (arith, ih s valid, same))
    ended (length_error s) dead = ground (arith, read-refused rest, append-nil r.messages, same)
    ended _ bad = absurd bad

-- However the stream is cut into chunks, the handler gets the same messages, those of the
-- byte-by-byte reader on the whole stream, and the connection is left in the same state or refused.
pub feed-Shows :
    (s : State) (chunks : List Bytes)
    → IsValid s
    → Shows (feed s chunks) (read (view s) (flatten chunks))
unfolding feed read flatten
feed-Shows s [] v = (refl, (refl, v))
feed-Shows s (c ∷ cs) v = rw (read-append (view s) c (flatten cs)) (
    resume-Shows (λ s'. feed s' cs) (process_data_chunk s c) (read (view s) c) (flatten cs)
      (process_data_chunk-Shows s c v) (λ s' v'. feed-Shows s' cs v'))

-- What the writer can frame and the reader takes: at least a byte, and a length that an `int` holds.
abbrev pub IsFramed : Bytes → Type 0
IsFramed m = (m ≢ []) × (length m < 2 ^ 31)

read-encode_uint32 :
    (n : ℕ) → n < 2 ^ 31 → read (in_length []) (encode_uint32 n) ≡ quiet (in_message n [])
unfolding encode_uint32 open_message
read-encode_uint32 n h =
    let bytes = encode_uint32 n in
    let value : decode_uint32 bytes ≡ n = omega (arith, decode_uint32-encode_uint32 n) in
    read-in_length_full [] (n % 256)
      ((n / 256 % 256) ∷ (n / 2 ^ 16 % 256) ∷ (n / 2 ^ 24 % 256) ∷ []) refl
    ∙ rw value (ground arith)

read-get_response :
    (m rest : Bytes)
    → IsFramed m
    → read (in_length []) (get_response m ++ rest) ≡ record {
      messages = m ∷ (read (in_length []) rest).messages;
      reader = (read (in_length []) rest).reader;
    }
unfolding get_response
read-get_response [] rest (ne, h) = absurd (ne refl)
read-get_response (b ∷ bs) rest (ne, h) = rw (
  append_assoc (encode_uint32 (length (b ∷ bs))) (b ∷ bs) rest,
  read-append (in_length []) (encode_uint32 (length (b ∷ bs))) (b ∷ (bs ++ rest)),
  read-encode_uint32 (length (b ∷ bs)) h,
  read-append (in_message (suc (length bs)) []) (b ∷ bs) rest,
  read-in_message_full (suc (length bs)) [] b bs (omega arith),
)

read_responses :
    (ms : List Bytes)
    → All IsFramed ms
    → read (in_length []) (flatten (map get_response ms))
      ≡ record { messages = ms; reader = in_length [] }
unfolding read flatten
read_responses [] h = refl
read_responses (m ∷ ms) (h, hs) =
    rw (read-get_response m (flatten (map get_response ms)) h, read_responses ms hs)

-- The round trip of the wire: whatever messages a peer frames, each of at least one byte and with a
-- length below 2^31, and however the stream is cut into chunks, the fresh reader hands the handler
-- exactly those messages in their order and stands at the start of a message again.
pub feed-get_response :
    (ms chunks : List Bytes)
    → All IsFramed ms
    → flatten chunks ≡ flatten (map get_response ms)
    → Shows (feed initial chunks) (record { messages = ms; reader = in_length [] })
feed-get_response ms chunks h e =
    subst (Shows (feed initial chunks)) (ap (read (in_length [])) e ∙ read_responses ms h)
      (feed-Shows initial chunks initial-IsValid)

read_empty_message :
    (b : ℕ) (bs : Bytes)
    → read (in_length []) (encode_uint32 0 ++ (b ∷ bs)) ≡ record {
      messages = [] ∷ (read (in_length []) (b ∷ bs)).messages;
      reader = (read (in_length []) (b ∷ bs)).reader;
    }
read_empty_message b bs =
    rw (read-append (in_length []) (encode_uint32 0) (b ∷ bs), read-encode_uint32 0 (omega arith))
      (read-in_message_empty b bs)

-- An empty message is not handed over when its frame is complete, but with the first byte of
-- whatever follows it, in front of the messages that those bytes complete.
pub feed_empty_message :
    (b : ℕ) (bs : Bytes)
    → Shows
        (feed initial (get_response [] ∷ []))
        (record { messages = []; reader = in_message 0 [] })
      × Shows (feed initial (get_response [] ∷ (b ∷ bs) ∷ [])) (record {
        messages = [] ∷ (read (in_length []) (b ∷ bs)).messages;
        reader = (read (in_length []) (b ∷ bs)).reader;
      })
unfolding get_response flatten encode_uint32
feed_empty_message b bs =
    let frame = get_response [] in
    (
      subst (Shows (feed initial (frame ∷ []))) (read-encode_uint32 0 (omega arith))
          (feed-Shows initial (frame ∷ []) initial-IsValid),
      subst (Shows (feed initial (frame ∷ (b ∷ bs) ∷ []))) (rw append-nil (read_empty_message b bs))
          (feed-Shows initial (frame ∷ (b ∷ bs) ∷ []) initial-IsValid),
    )
