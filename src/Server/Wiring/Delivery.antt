-- ===== src/Server/Wiring/Delivery.antt =====
-- From the socket of a connection to the handler of its requests.
use mathlib.Core.List.{flatten}
use angry_balls.Base.{
  ◌<◌, List, [], ◌∷◌, ◌++◌, false, All, map, length, Option, Option-cases, some, inl, inr, ◌≡◌,
  refl, sym, ap, ap₂, ◌∙◌, arith,
}
use angry_balls.Bytes.{Bytes}
use angry_balls.Mio.Reader.{received, would_block, returns, read_socket}
use angry_balls.Server.Framing.{
  State, Result, initial, ok, length_error, assertion_failed, out_of_fuel, process_data_chunk,
  get_response,
}
use angry_balls.Server.Framing.Spec.{in_length}
use angry_balls.Server.Framing.Refinement.{view, Ends}
use angry_balls.Server.Framing.RoundTrip.{feed, feed-ok, IsFramed, feed-get_response}
use angry_balls.Server.Wiring.{handle_all, process_chunk, read_connection}

module _ {X : Type 0} (handle : Bytes → X → Option X) where
  handle_all-append :
      (xs ys : List Bytes) (x x' : X)
      → handle_all handle (xs ++ ys) x ≡ some x'
      → (x1 : X) × (handle_all handle xs x ≡ some x1) × (handle_all handle ys x1 ≡ some x')
  unfolding handle_all
  handle_all-append [] ys x x' h = (x, refl, h)
  handle_all-append (m ∷ ms) ys x x' h = elim (Option-cases (handle m x)) [
    | inl e ↦ absurd (ground (arith, e, h))
    | inr (x0, e) ↦
        let (x1, before, after) = handle_all-append ms ys x0 x' (ground (arith, e, h)) in
        (x1, rw (handle_all, e) before, after)
  ]

  process_chunk-ok :
      (s s' : State) (x x' : X) (c : Bytes)
      → (process_data_chunk s c).result ≡ ok s'
      → handle_all handle (process_data_chunk s c).handled x ≡ some x'
      → process_chunk handle (s, x) c ≡ some (s', x')
  unfolding process_chunk
  process_chunk-ok s s' x x' c r h = rw (process_chunk, h, r) refl

  read_connection-feed :
      (s s' : State) (x x' : X) (cs : List Bytes)
      → All (λ c. 0 < length c) cs
      → (feed s cs).result ≡ ok s'
      → handle_all handle (feed s cs).handled x ≡ some x'
      → read_connection handle (s, x) (map received cs ++ would_block ∷ []) ≡ returns false (s', x')
  unfolding read_connection read_socket feed handle_all
  read_connection-feed s s' x x' [] _ r h =
      let same_state : s ≡ s' = cc in
      let same : x ≡ x' = cc in ap₂ (λ t y. returns false (t, y)) same_state same
  read_connection-feed s s' x x' ([] ∷ cs) (b, bs) r h = absurd (omega arith)
  read_connection-feed s s' x x' ((b ∷ c) ∷ cs) (_, bs) r h =
      let (s1, first, others, both) = feed-ok s (b ∷ c) cs s' r in
      let (x1, before, after) =
        handle_all-append (process_data_chunk s (b ∷ c)).handled (feed s1 cs).handled x x'
          (ap (λ ms. handle_all handle ms x) (sym both) ∙ h) in
      rw (read_connection, read_socket, process_chunk-ok s s1 x x1 (b ∷ c) first before)
        (read_connection-feed s1 s' x1 x' cs bs others after)

  Ends-ok :
      (r : Result) → Ends r (in_length []) → (s' : State) × (r ≡ ok s') × (view s' ≡ in_length [])
  Ends-ok (ok s') (seen, valid) = (s', refl, seen)
  Ends-ok (length_error s') e = cc
  Ends-ok (assertion_failed s') e = absurd e
  Ends-ok out_of_fuel e = absurd e

  -- Whatever requests a client frames, each of at least one byte and with a length below 2^31, and
  -- however the socket cuts the stream into chunks: one call of AsyncReader::read on a fresh connection
  -- takes all of it, hands each request to the handler once and in its order, leaves what the handler
  -- leaves, and returns that the connection is open, with the protocol at the start of a message; if
  -- every call of the handler returns.
  pub read_connection-get_response :
      (ms chunks : List Bytes) (x x' : X)
      → All IsFramed ms
      → All (λ c. 0 < length c) chunks
      → flatten chunks ≡ flatten (map get_response ms)
      → handle_all handle ms x ≡ some x'
      → (s' : State) × (read_connection handle
            (initial, x)
            (map received chunks ++ would_block ∷ [])
          ≡ returns false (s', x'))
        × (view s' ≡ in_length [])
  read_connection-get_response ms chunks x x' framed some_bytes e h =
      let (all, end) = feed-get_response ms chunks framed e in
      let (s', read, seen) = Ends-ok (feed initial chunks).result end in
      (
        s',
        read_connection-feed initial s' x x' chunks some_bytes read
            (ap (λ l. handle_all handle l x) all ∙ h),
        seen,
      )
