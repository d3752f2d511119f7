-- ===== src/Web/Http/Message/Lines.antt =====
-- Header lines as `Serialize` writes them, read by the loop of `HttpRequest::Parse`.
use angry_balls.Base.{
  ℕ, zero, suc, ◌+◌, ◌-◌, ◌^◌, ◌<◌, List, [], ◌∷◌, ◌++◌, true, false, All, some, map, drop, length,
  length-append, take_append, take_all, drop_append, append_assoc, ltb, ◌==◌, ◌≡◌, refl, sym, ap,
  ◌∙◌, arith,
}
use angry_balls.Bytes.{Bytes}
use angry_balls.Web.Http.{npos, size_t, text, find_from, find, substr}
use angry_balls.Web.Http.Message.{
  HttpHeader, http_header, crlf, trim_left, trim_right, parse_header, headers, one_more,
  parse_headers,
}

abbrev pub Lacks : ℕ → Bytes → Type 0
Lacks b s = All (λ c. (b == c) ≡ false) s

-- A line before its end.
abbrev pub line_of : HttpHeader → Bytes
line_of h = h.name ++ (text ": " ++ h.value)

-- A header that fits into a line: no CR, no colon in the name, no blanks around the value.
pub record IsPlain (h : HttpHeader) : Type 0 where
  pub one_line : Lacks 13 (line_of h)
  pub no_colon : Lacks 58 h.name
  pub no_blank_before : trim_left h.value ≡ h.value
  pub no_blank_after : trim_right h.value ≡ h.value

pub find-crlf :
    (line rest : Bytes) (pos : ℕ)
    → Lacks 13 line
    → find_from crlf (line ++ (crlf ++ rest)) pos ≡ pos + length line
unfolding find_from
find-crlf [] rest pos _ = omega arith
find-crlf (c ∷ line) rest pos (other, others) =
    rw (find_from, other, find-crlf line rest (suc pos) others) (omega arith)

find-colon :
    (name rest : Bytes) (pos : ℕ)
    → Lacks 58 name
    → find_from (text ":") (name ++ (text ": " ++ rest)) pos ≡ pos + length name
unfolding find_from
find-colon [] rest pos _ = omega arith
find-colon (c ∷ name) rest pos (other, others) =
    rw (find_from, other, find-colon name rest (suc pos) others) (omega arith)

pub substr-middle :
    (before middle after : Bytes) (start count : ℕ)
    → start ≡ length before
    → count ≡ length middle
    → substr (before ++ (middle ++ after)) start count ≡ some middle
unfolding substr
substr-middle before middle after start count s c =
    let within : ltb (length (before ++ (middle ++ after))) (length before) ≡ false =
      ground (arith, length-append before (middle ++ after)) in
    rw (s, c, substr, within, drop_append before (middle ++ after), take_append middle after) refl

substr-rest :
    (before after : Bytes) (start : ℕ)
    → start ≡ length before
    → length after < npos
    → substr (before ++ after) start npos ≡ some after
unfolding substr
substr-rest before after start s short =
    let within : ltb (length (before ++ after)) (length before) ≡ false =
      ground (arith, length-append before after) in
    rw (s, substr, within, drop_append before after, take_all after npos (omega arith)) refl

parse_header-line_of :
    (h : HttpHeader)
    → IsPlain h
    → length (line_of h) < npos
    → parse_header (line_of h) ≡ some (http_header h.name h.value)
unfolding parse_header find trim_left
parse_header-line_of h p short =
    let colon : find_from (text ":") (line_of h) 0 ≡ length h.name =
      find-colon h.name h.value 0 p.no_colon ∙ omega arith in
    let name : substr (line_of h) 0 (length h.name) ≡ some h.name =
      substr-middle [] h.name (text ": " ++ h.value) 0 (length h.name) refl refl in
    let total = length-append h.name (text ": " ++ h.value) in
    let until = length-append h.name (58 ∷ []) in
    let start : size_t (length h.name + 1) ≡ length (h.name ++ (58 ∷ [])) = omega arith in
    let value : substr (line_of h) (size_t (length h.name + 1)) npos ≡ some (32 ∷ h.value) =
      ap (λ l. substr l (size_t (length h.name + 1)) npos)
        (sym (append_assoc h.name (58 ∷ []) (32 ∷ h.value)))
      ∙ substr-rest (h.name ++ (58 ∷ [])) (32 ∷ h.value) (size_t (length h.name + 1)) start
          (omega arith) in
    rw (parse_header, find, colon, name, value, p.no_blank_before, p.no_blank_after) refl

-- The headers that `Serialize` prints, as lines with their ends.
abbrev pub lines_of : List HttpHeader → Bytes
lines_of [] = []
lines_of (h ∷ hs) = line_of h ++ (crlf ++ lines_of hs)

-- One round of the loop over a line.
parse_headers_line :
    (rounds : ℕ) (before line rest : Bytes) (start : ℕ) (h : HttpHeader)
    → start ≡ length before
    → Lacks 13 line
    → 0 < length line
    → length (before ++ (line ++ (crlf ++ rest))) < 2 ^ 63
    → parse_header line ≡ some h
    → parse_headers (suc rounds) (before ++ (line ++ (crlf ++ rest))) start
      ≡ one_more h
          (parse_headers rounds (before ++ (line ++ (crlf ++ rest))) (start + length line + 2))
unfolding parse_headers find
parse_headers_line rounds before line rest start h s one_line some_bytes short e =
    let body = before ++ (line ++ (crlf ++ rest)) in
    let sizes = length-append before (line ++ (crlf ++ rest)) in
    let sizes' = length-append line (crlf ++ rest) in
    let end : find crlf body start ≡ start + length line =
      ap (λ l. find_from crlf l start)
        (ap (λ k. drop k body) s ∙ drop_append before (line ++ (crlf ++ rest)))
      ∙ find-crlf line rest start one_line in
    let test : (start == start + length line) ≡ false = ground arith in
    let next : size_t (start + length line + 2) ≡ start + length line + 2 = omega arith in
    let count : size_t (start + length line + 2 ^ 64 - start) ≡ length line = omega arith in
    let cut = substr-middle before line (crlf ++ rest) start (length line) s refl in
    rw (parse_headers, end, test, count, cut, e, end, next) refl

parse_headers_end :
    (rounds : ℕ) (before tail : Bytes) (start : ℕ)
    → start ≡ length before
    → parse_headers (suc rounds) (before ++ (crlf ++ tail)) start ≡ headers []
unfolding parse_headers find
parse_headers_end rounds before tail start s =
    let end : find crlf (before ++ (crlf ++ tail)) start ≡ start =
      ap (λ l. find_from crlf l start)
        (ap (λ k. drop k (before ++ (crlf ++ tail))) s ∙ drop_append before (crlf ++ tail))
      ∙ find-crlf [] tail start tt
      ∙ omega arith in
    let test : (start == start) ≡ true = ground arith in rw (parse_headers, end, test) refl

-- What the constructor makes of each header.
abbrev pub normalized : List HttpHeader → List HttpHeader
normalized hs = map (λ (h : HttpHeader). http_header h.name h.value) hs

pub parse_headers-lines_of :
    (hs : List HttpHeader) (rounds : ℕ) (body before tail : Bytes) (start : ℕ)
    → body ≡ before ++ (lines_of hs ++ (crlf ++ tail))
    → length hs < rounds
    → start ≡ length before
    → All IsPlain hs
    → length body < 2 ^ 63
    → parse_headers rounds body start ≡ headers (normalized hs)
parse_headers-lines_of hs zero body before tail start e r s _ short = absurd (omega arith)
parse_headers-lines_of [] (suc rounds) body before tail start e r s _ short =
    rw (e) (parse_headers_end rounds before tail start s)
parse_headers-lines_of (h ∷ hs) (suc rounds) body before tail start e r s (p, ps) short =
    let line = line_of h in
    let made = http_header h.name h.value in
    let rest = lines_of hs ++ (crlf ++ tail) in
    let here : body ≡ before ++ (line ++ (crlf ++ rest)) =
      e ∙ ap (λ l. before ++ l) (append_assoc line (crlf ++ lines_of hs) (crlf ++ tail)) in
    let after : body ≡ (before ++ (line ++ crlf)) ++ rest =
      here
      ∙ ap (λ l. before ++ l) (sym (append_assoc line crlf rest))
      ∙ sym (append_assoc before (line ++ crlf) rest) in
    let name_size = length-append h.name (text ": " ++ h.value) in
    let sizes = ap length here ∙ length-append before (line ++ (crlf ++ rest)) in
    let line_sizes = length-append line (crlf ++ rest) in
    let read_sizes = length-append before (line ++ crlf) in
    let read_sizes' = length-append line crlf in
    let made_of = parse_header-line_of h p (omega arith) in
    let round =
      parse_headers_line rounds before line rest start made s p.one_line (omega arith)
        (omega (arith, ap length here)) made_of in
    ap (λ b. parse_headers (suc rounds) b start) here
    ∙ round
    ∙ ap (λ b. one_more made (parse_headers rounds b (start + length line + 2))) (sym here)
    ∙ ap (one_more made) (
        parse_headers-lines_of hs rounds body (before ++ (line ++ crlf)) tail
          (start + length line + 2) after (omega arith) (omega arith) ps short)
