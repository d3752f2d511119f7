-- ===== src/Web/Request/Chunks.antt =====
-- Reading a request chunk by chunk against a scan of the whole stream.
use mathlib.Core.List.{flatten}
use angry_balls.Base.{
  ℕ, zero, suc, ◌+◌, ◌≤◌, ◌≡◌, refl, sym, ap, ◌∙◌, List, [], ◌∷◌, ◌++◌, none, some, take, drop,
  length, replicate, arith, map, append-nil, append_assoc, take_append,
}
use angry_balls.Bytes.{Bytes}
use angry_balls.Web.Request.{
  DfaStateForHttpRequest, initial, seen_cr, seen_crlf, seen_crlfcr, seen_crlfcrlf, next_state,
  buffer_size, Scanned, complete, in_state, one_further, scan_on, scan, Read, bytes, Request,
  request, waiting, read_from, read_http_request,
}
use angry_balls.Web.Request.Header.{header, scan-header, scanned_header}

abbrev further_by : ℕ → Scanned → Scanned
further_by k (complete n) = complete (k + n)
further_by k (in_state s) = in_state s

-- The scan of `ys` after a scan of `k` bytes.
abbrev then_scan : ℕ → Bytes → Scanned → Scanned
then_scan k ys (complete n) = complete n
then_scan k ys (in_state s) = further_by k (scan ys s)

further_by_zero : (r : Scanned) → further_by 0 r ≡ r
further_by_zero (complete n) = ap complete (omega arith)
further_by_zero (in_state s) = refl

one_further-further_by : (k : ℕ) (r : Scanned) → one_further (further_by k r) ≡ further_by (suc k) r
one_further-further_by k (complete n) = ap complete (omega arith)
one_further-further_by k (in_state s) = refl

one_further-then_scan :
    (k : ℕ) (ys : Bytes) (r : Scanned)
    → one_further (then_scan k ys r) ≡ then_scan (suc k) ys (one_further r)
one_further-then_scan k ys (complete n) = refl
one_further-then_scan k ys (in_state s) = one_further-further_by k (scan ys s)

scan_on-append :
    (x : ℕ) (xs ys : Bytes)
    → ((t : DfaStateForHttpRequest) → scan (xs ++ ys) t ≡ then_scan (length xs) ys (scan xs t))
    → (t : DfaStateForHttpRequest)
    → scan_on (scan (xs ++ ys)) t ≡ then_scan (length (x ∷ xs)) ys (scan_on (scan xs) t)
scan_on-append x xs ys ih t = on t
  where
    later :
        (t : DfaStateForHttpRequest)
        → one_further (scan (xs ++ ys) t) ≡ then_scan (suc (length xs)) ys (one_further (scan xs t))
    later t = ap one_further (ih t) ∙ one_further-then_scan (length xs) ys (scan xs t)

    on :
        (t : DfaStateForHttpRequest)
        → scan_on (scan (xs ++ ys)) t ≡ then_scan (suc (length xs)) ys (scan_on (scan xs) t)
    on initial = later initial
    on seen_cr = later seen_cr
    on seen_crlf = later seen_crlf
    on seen_crlfcr = later seen_crlfcr
    on seen_crlfcrlf = refl

scan-append :
    (xs ys : Bytes) (s : DfaStateForHttpRequest)
    → scan (xs ++ ys) s ≡ then_scan (length xs) ys (scan xs s)
unfolding scan
scan-append [] ys s = sym (further_by_zero (scan ys s))
scan-append (x ∷ xs) ys s = scan_on-append x xs ys (scan-append xs ys) (next_state s x)

-- A scan that completes has not gone past the end.
abbrev Within : Bytes → Scanned → Type 0
Within xs (complete n) = n ≤ length xs
Within xs (in_state s) = Unit

one_further-Within :
    (x : ℕ) (xs : Bytes) (r : Scanned) → Within xs r → Within (x ∷ xs) (one_further r)
one_further-Within x xs (complete n) h = omega arith
one_further-Within x xs (in_state s) h = tt

scan_on-Within :
    (x : ℕ) (xs : Bytes)
    → ((t : DfaStateForHttpRequest) → Within xs (scan xs t))
    → (t : DfaStateForHttpRequest) → Within (x ∷ xs) (scan_on (scan xs) t)
scan_on-Within x xs ih initial = one_further-Within x xs (scan xs initial) (ih initial)
scan_on-Within x xs ih seen_cr = one_further-Within x xs (scan xs seen_cr) (ih seen_cr)
scan_on-Within x xs ih seen_crlf = one_further-Within x xs (scan xs seen_crlf) (ih seen_crlf)
scan_on-Within x xs ih seen_crlfcr = one_further-Within x xs (scan xs seen_crlfcr) (ih seen_crlfcr)
scan_on-Within x xs ih seen_crlfcrlf = omega arith

scan-Within : (xs : Bytes) (s : DfaStateForHttpRequest) → Within xs (scan xs s)
unfolding scan
scan-Within [] s = tt
scan-Within (x ∷ xs) s = scan_on-Within x xs (scan-Within xs) (next_state s x)

take-append_within :
    (n : ℕ) (xs ys zs : Bytes) → n ≤ length xs → take n (xs ++ ys) ≡ take n (xs ++ zs)
take-append_within zero xs ys zs h = refl
take-append_within (suc n) [] ys zs h = absurd (omega arith)
take-append_within (suc n) (x ∷ xs) ys zs h =
    ap (λ l. x ∷ l) (take-append_within n xs ys zs (omega arith))

-- What is left to do after a scan of `stream`.
abbrev ends : Bytes → Bytes → Scanned → Request
ends result stream (complete n) = request (result ++ take n stream)
ends result stream (in_state s) = waiting (result ++ stream) s

take-length_plus : (xs ys : Bytes) (n : ℕ) → take (length xs + n) (xs ++ ys) ≡ xs ++ take n ys
take-length_plus [] ys n = ap (λ k. take k ys) (omega arith)
take-length_plus (x ∷ xs) ys n =
    let next : suc (length xs) + n ≡ suc (length xs + n) = omega arith in
    rw (next) (ap (λ l. x ∷ l) (take-length_plus xs ys n))

regroup :
    (result c stream : Bytes) (r : Scanned)
    → ends (result ++ c) stream r ≡ ends result (c ++ stream) (further_by (length c) r)
regroup result c stream (complete n) = ap request (
    append_assoc result c (take n stream)
    ∙ ap (λ l. result ++ l) (sym (take-length_plus c stream n)))
regroup result c stream (in_state t) = ap (λ l. waiting l t) (append_assoc result c stream)

-- One chunk, read into the front of `buf`.
one_chunk :
    (result buf c stream : Bytes) (chunks : List Read)
    → ((t : DfaStateForHttpRequest) (result buf : Bytes)
        → read_from t result buf chunks ≡ ends result stream (scan stream t))
    → (r : Scanned) → Within c r
    → (elim r as (λ x. Request) [
      | complete n ↦ request (result ++ take n (c ++ drop (length c) buf))
      | in_state t ↦
          read_from t
            (result ++ take (length c) (c ++ drop (length c) buf))
            (c ++ drop (length c) buf)
            chunks
    ])
      ≡ ends result (c ++ stream) (then_scan (length c) stream r)
one_chunk result buf c stream chunks ih (complete n) h =
    ap (λ l. request (result ++ l)) (take-append_within n c _ _ h)
one_chunk result buf c stream chunks ih (in_state t) h =
    rw (take_append c (drop (length c) buf))
      (ih t (result ++ c) _ ∙ regroup result c stream (scan stream t))

read_from-scan :
    (chunks : List Bytes) (s : DfaStateForHttpRequest) (result buf : Bytes)
    → read_from s result buf (map bytes chunks)
      ≡ ends result (flatten chunks) (scan (flatten chunks) s)
unfolding read_from scan flatten
read_from-scan [] s result buf = rw (append-nil result) refl
read_from-scan (c ∷ cs) s result buf = rw (scan-append c (flatten cs) s) (
    one_chunk result buf c (flatten cs) (map bytes cs) (read_from-scan cs) (scan c s)
      (scan-Within c s))

-- Without errors a request is read to the end of its first blank line, however the stream is cut
-- into chunks: the bytes up to there are returned, or, if there is no blank line yet, the handler
-- waits with all bytes that came.
pub read_http_request-header :
    (chunks : List Bytes)
    → (k : DfaStateForHttpRequest) × (read_http_request (map bytes chunks)
        ≡ elim (header (flatten chunks)) [
          | none ↦ waiting (flatten chunks) k
          | some n ↦ request (take n (flatten chunks))
        ])
unfolding read_http_request
read_http_request-header chunks =
    let stream = flatten chunks in
    let (k, e) = by_scan stream (scan stream initial) in
    (
      k,
      read_from-scan chunks initial [] (replicate buffer_size 0) ∙ e ∙ rw (scan-header stream) refl,
    )
  where
    by_scan :
        (stream : Bytes) (r : Scanned)
        → (k : DfaStateForHttpRequest) × (ends [] stream r ≡ elim (scanned_header 0 r) [
          | none ↦ waiting stream k
          | some n ↦ request (take n stream)
        ])
    by_scan stream (complete n) = (initial, ap (λ l. request (take l stream)) (omega arith))
    by_scan stream (in_state s) = (s, refl)
