-- ===== src/Web/Request/Header.antt =====
-- The automaton against the search for the blank line.
use angry_balls.Base.{
  ℕ, suc, ◌+◌, ◌≡◌, refl, sym, ap, ◌≢◌, subst, ◌∙◌, [], ◌∷◌, ◌++◌, Bool, false, Option, none, some,
  length, ◌==◌, ==_iff, if◌then◌else◌, Bool-cases, inl, inr, arith,
}
use angry_balls.Bytes.{Bytes}
use angry_balls.Web.Request.{
  DfaStateForHttpRequest, initial, seen_cr, seen_crlf, seen_crlfcr, seen_crlfcrlf, next_state, cr,
  lf, Scanned, complete, in_state, one_further, scan,
}

-- A blank line stands at the front: CR, LF, CR, LF.
abbrev pub blank_line : Bytes → Bool
blank_line (a ∷ b ∷ c ∷ d ∷ xs) =
    if a == cr then if b == lf then if c == cr then d == lf else false else false else false
blank_line _ = false

abbrev pub further : Option ℕ → Option ℕ
further none = none
further (some n) = some (suc n)

-- The length of the shortest prefix that ends with a blank line.
unfoldable pub header : Bytes → Option ℕ
header [] = none
header (x ∷ xs) = let rest = further (header xs) in if blank_line (x ∷ xs) then some 4 else rest

-- The bytes that a state has seen of a blank line.
abbrev seen : DfaStateForHttpRequest → Bytes
seen initial = []
seen seen_cr = cr ∷ []
seen seen_crlf = cr ∷ lf ∷ []
seen seen_crlfcr = cr ∷ lf ∷ cr ∷ []
seen seen_crlfcrlf = cr ∷ lf ∷ cr ∷ lf ∷ []

abbrev pub scanned_header : ℕ → Scanned → Option ℕ
scanned_header k (complete n) = some (k + n)
scanned_header k (in_state s) = none

-- Skipping a byte that starts no blank line.
header_skip :
    (x : ℕ) (xs : Bytes) → blank_line (x ∷ xs) ≡ false → header (x ∷ xs) ≡ further (header xs)
unfolding header
header_skip x xs e = rw (e) refl

header_other : (x : ℕ) (xs : Bytes) → (x == cr) ≡ false → header (x ∷ xs) ≡ further (header xs)
unfolding header
header_other x [] e = refl
header_other x (b ∷ []) e = refl
header_other x (b ∷ c ∷ []) e = refl
header_other x (b ∷ c ∷ d ∷ xs) e = rw (e) refl

header-cr_other :
    (b : ℕ) (xs : Bytes) → (b == lf) ≡ false → header (cr ∷ b ∷ xs) ≡ further (header (b ∷ xs))
unfolding header
header-cr_other b [] e = refl
header-cr_other b (c ∷ []) e = refl
header-cr_other b (c ∷ d ∷ xs) e = rw (e) refl

header-lf : (xs : Bytes) → header (lf ∷ xs) ≡ further (header xs)
header-lf xs = header_other lf xs refl

header_crlf_other :
    (c : ℕ) (xs : Bytes)
    → (c == cr) ≡ false
    → header (cr ∷ lf ∷ c ∷ xs) ≡ further (further (further (header xs)))
header_crlf_other c xs e =
    header_skip cr (lf ∷ c ∷ xs) (none_here xs)
    ∙ ap further (header-lf (c ∷ xs) ∙ ap further (header_other c xs e))
  where
    none_here : (xs : Bytes) → blank_line (cr ∷ lf ∷ c ∷ xs) ≡ false
    none_here [] = refl
    none_here (d ∷ ys) = rw (e) refl

header_crlfcr_other :
    (d : ℕ) (xs : Bytes)
    → (d == lf) ≡ false
    → header (cr ∷ lf ∷ cr ∷ d ∷ xs) ≡ further (further (further (header (d ∷ xs))))
header_crlfcr_other d xs e =
    header_skip cr (lf ∷ cr ∷ d ∷ xs) e
    ∙ ap further (header-lf (cr ∷ d ∷ xs) ∙ ap further (header-cr_other d xs e))

-- A byte is CR, LF or neither.
by_char :
    (P : ℕ → Type 0) (b : ℕ) → P cr → P lf → ((b == cr) ≡ false → (b == lf) ≡ false → P b) → P b
by_char P b on_cr on_lf other = elim (Bool-cases (b == cr)) [
  | inl is_cr ↦ subst P (sym ((==_iff b cr).0 is_cr)) on_cr
  | inr not_cr ↦ elim (Bool-cases (b == lf)) [
    | inl is_lf ↦ subst P (sym ((==_iff b lf).0 is_lf)) on_lf
    | inr not_lf ↦ other not_cr not_lf
  ]
]

shift : (k : ℕ) (r : Scanned) → scanned_header k (one_further r) ≡ scanned_header (suc k) r
shift k (complete n) = ap some (omega arith)
shift k (in_state s) = refl

further_shift : (k : ℕ) (r : Scanned) → further (scanned_header k r) ≡ scanned_header (suc k) r
further_shift k (complete n) = ap some (omega arith)
further_shift k (in_state s) = refl

-- The automaton, started in a state that is not the last, finds the blank line of the bytes that
-- the state stands for and those to come.
unfoldable Finds : Bytes → DfaStateForHttpRequest → Type 0
Finds bs s = header (seen s ++ bs) ≡ scanned_header (length (seen s)) (scan bs s)

scan_other :
    (b : ℕ) (bs : Bytes) (s : DfaStateForHttpRequest)
    → s ≢ seen_crlfcrlf
    → (b == cr) ≡ false
    → (b == lf) ≡ false
    → scan (b ∷ bs) s ≡ one_further (scan bs initial)
unfolding scan next_state
scan_other b bs initial ne e e' = rw (e) refl
scan_other b bs seen_cr ne e e' = rw (e, e') refl
scan_other b bs seen_crlf ne e e' = rw (e, e') refl
scan_other b bs seen_crlfcr ne e e' = rw (e, e') refl
scan_other b bs seen_crlfcrlf ne e e' = absurd (ne refl)

module _ (bs : Bytes) (at_start : Finds bs initial) where
  further_start :
      (k : ℕ) {o : Option ℕ}
      → o ≡ scanned_header k (scan bs initial)
      → further o ≡ scanned_header (suc k) (scan bs initial)
  further_start k e = ap further e ∙ further_shift k (scan bs initial)

  Finds-other :
      (b : ℕ) (s : DfaStateForHttpRequest)
      → s ≢ seen_crlfcrlf
      → (b == cr) ≡ false
      → (b == lf) ≡ false
      → Finds (b ∷ bs) s
  unfolding Finds
  Finds-other b s ne e e' =
      steps s ne
      ∙ sym (
          ap (scanned_header (length (seen s))) (scan_other b bs s ne e e')
          ∙ shift (length (seen s)) (scan bs initial))
    where
      one_step : header (b ∷ bs) ≡ scanned_header 1 (scan bs initial)
      one_step = header_other b bs e ∙ further_start 0 at_start

      steps :
          (s : DfaStateForHttpRequest)
          → s ≢ seen_crlfcrlf
          → header (seen s ++ b ∷ bs) ≡ scanned_header (suc (length (seen s))) (scan bs initial)
      steps initial ne = one_step
      steps seen_cr ne = header-cr_other b bs e' ∙ further_start 1 one_step
      steps seen_crlf ne =
          header_crlf_other b bs e ∙ further_start 2 (further_start 1 (further_start 0 at_start))
      steps seen_crlfcr ne =
          header_crlfcr_other b bs e' ∙ further_start 3 (further_start 2 (further_start 1 one_step))
      steps seen_crlfcrlf ne = absurd (ne refl)

  blank_first : header (cr ∷ lf ∷ cr ∷ lf ∷ bs) ≡ some 4
  unfolding header
  blank_first = refl

  Finds-lf :
      Finds bs seen_crlf → (s : DfaStateForHttpRequest) → s ≢ seen_crlfcrlf → Finds (lf ∷ bs) s
  unfolding Finds scan next_state
  Finds-lf at_crlf initial ne =
      header-lf bs ∙ further_start 0 at_start ∙ sym (shift 0 (scan bs initial))
  Finds-lf at_crlf seen_cr ne = at_crlf ∙ sym (shift 1 (scan bs seen_crlf))
  Finds-lf at_crlf seen_crlf ne =
      header_crlf_other lf bs refl
      ∙ further_start 2 (further_start 1 (further_start 0 at_start))
      ∙ sym (shift 2 (scan bs initial))
  Finds-lf at_crlf seen_crlfcr ne = blank_first
  Finds-lf at_crlf seen_crlfcrlf ne = absurd (ne refl)

Finds-cr :
    (bs : Bytes)
    → Finds bs seen_cr
    → Finds bs seen_crlfcr
    → (s : DfaStateForHttpRequest) → s ≢ seen_crlfcrlf
    → Finds (cr ∷ bs) s
unfolding Finds scan next_state
Finds-cr bs at_cr at_crlfcr initial ne = at_cr ∙ sym (shift 0 (scan bs seen_cr))
Finds-cr bs at_cr at_crlfcr seen_cr ne =
    header-cr_other cr bs refl
    ∙ ap further at_cr
    ∙ further_shift 1 (scan bs seen_cr)
    ∙ sym (shift 1 (scan bs seen_cr))
Finds-cr bs at_cr at_crlfcr seen_crlf ne = at_crlfcr ∙ sym (shift 2 (scan bs seen_crlfcr))
Finds-cr bs at_cr at_crlfcr seen_crlfcr ne =
    header_crlfcr_other cr bs refl
    ∙ ap further (
        ap further (ap further at_cr ∙ further_shift 1 (scan bs seen_cr))
        ∙ further_shift 2 (scan bs seen_cr))
    ∙ further_shift 3 (scan bs seen_cr)
    ∙ sym (shift 3 (scan bs seen_cr))
Finds-cr bs at_cr at_crlfcr seen_crlfcrlf ne = absurd (ne refl)

finds : (bs : Bytes) (s : DfaStateForHttpRequest) → s ≢ seen_crlfcrlf → Finds bs s
unfolding Finds scan header
finds [] initial ne = refl
finds [] seen_cr ne = refl
finds [] seen_crlf ne = refl
finds [] seen_crlfcr ne = refl
finds [] seen_crlfcrlf ne = absurd (ne refl)
finds (b ∷ bs) s ne =
    let at_start = finds bs initial (λ e. cc) in
    by_char (λ b. Finds (b ∷ bs) s) b
      (Finds-cr bs (finds bs seen_cr (λ e. cc)) (finds bs seen_crlfcr (λ e. cc)) s ne)
      (Finds-lf bs at_start (finds bs seen_crlf (λ e. cc)) s ne) (Finds-other bs at_start b s ne)

-- Over the bytes of one call the automaton stops just behind the first blank line, if there is one.
pub scan-header : (bs : Bytes) → header bs ≡ scanned_header 0 (scan bs initial)
unfolding Finds
scan-header bs = finds bs initial (λ e. cc)
