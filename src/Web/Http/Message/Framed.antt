-- ===== src/Web/Http/Message/Framed.antt =====
-- What a reader of the format finds in a response.
use angry_balls.Base.{
  ℕ, suc, ◌^◌, ◌<◌, List, [], ◌∷◌, ◌++◌, false, Bool-cases, All, All-append, length, length-append,
  append_assoc, ◌≤◌, ◌==◌, inl, inr, ◌≡◌, refl, sym, ap, ◌∙◌, arith,
}
use angry_balls.Bytes.{Bytes}
use angry_balls.Web.Http.{text, bytes_eq}
use angry_balls.Web.Http.Message.{
  HttpHeader, HttpResponse, crlf, headers, parse_headers, header_lines, serialize, trim_left,
  trim_right, is_blank, keep_end, normalize_name,
}
use angry_balls.Web.Http.Message.Lines.{
  Lacks, line_of, IsPlain, lines_of, normalized, parse_headers-lines_of,
}
use angry_balls.Web.Http.Message.Kept.{
  kept, named, IsLower, normalized_of_lower, kept-IsLower, named-kept, named-append,
}

header_lines-kept : (hs : List HttpHeader) → header_lines hs ≡ lines_of (kept hs)
unfolding header_lines
header_lines-kept [] = refl
header_lines-kept (h ∷ hs) = elim (Bool-cases (bytes_eq h.name (text "content-length"))) [
  | inl e ↦ rw (header_lines, e) (header_lines-kept hs)
  | inr e ↦
      rw (header_lines, e, header_lines-kept hs)
        (sym (append_assoc h.name (text ": " ++ h.value) (crlf ++ lines_of (kept hs))))
]

lines_of-append :
    (hs : List HttpHeader) (h : HttpHeader)
    → lines_of (hs ++ h ∷ []) ≡ lines_of hs ++ (line_of h ++ crlf)
lines_of-append [] h = refl
lines_of-append (g ∷ hs) h =
    ap (λ l. line_of g ++ (crlf ++ l)) (lines_of-append hs h)
    ∙ sym (append_assoc (line_of g) (crlf ++ lines_of hs) (line_of h ++ crlf))

pub length-lines_of : (hs : List HttpHeader) → length hs ≤ length (lines_of hs)
length-lines_of [] = omega arith
length-lines_of (h ∷ hs) =
    omega (arith, length-lines_of hs, length-append (line_of h) (crlf ++ lines_of hs))

-- The digits of a number.
abbrev pub IsDigit : ℕ → Type 0
IsDigit c = (47 < c) × (c < 58)

pub record IsDecimal (decimal : ℕ → Bytes) : Type 0 where
  pub digits : (n : ℕ) → All IsDigit (decimal n)

digits-Lacks : (s : Bytes) → All IsDigit s → Lacks 13 s
digits-Lacks [] _ = tt
digits-Lacks (c ∷ s) ((low, high), hs) = (ground arith, digits-Lacks s hs)

trim_left-digits : (s : Bytes) → All IsDigit s → trim_left s ≡ s
unfolding trim_left
trim_left-digits [] _ = refl
trim_left-digits (c ∷ s) ((low, high), hs) =
    let solid : is_blank c ≡ false = ground arith in rw (trim_left, solid) refl

keep_end-solid : (c : ℕ) (s : Bytes) → is_blank c ≡ false → keep_end c s ≡ c ∷ s
keep_end-solid c [] e = rw e refl
keep_end-solid c (b ∷ s) e = refl

trim_right-digits : (s : Bytes) → All IsDigit s → trim_right s ≡ s
unfolding trim_right
trim_right-digits [] _ = refl
trim_right-digits (c ∷ s) ((low, high), hs) =
    let solid : is_blank c ≡ false = ground arith in
    ap (keep_end c) (trim_right-digits s hs) ∙ keep_end-solid c s solid

abbrev pub content_length : (ℕ → Bytes) → ℕ → HttpHeader
content_length decimal n = record { name = text "content-length"; value = decimal n }

content_length-IsPlain :
    (decimal : ℕ → Bytes) (n : ℕ) → IsDecimal decimal → IsPlain (content_length decimal n)
content_length-IsPlain decimal n laws = record {
  one_line = lacks;
  no_colon = lacks_colon;
  no_blank_before = trim_left-digits (decimal n) (laws.digits n);
  no_blank_after = trim_right-digits (decimal n) (laws.digits n);
}
  where
    lacks : Lacks 13 (line_of (content_length decimal n))
    lacks =
        All-append (λ c. (13 == c) ≡ false) (text "content-length: ") (decimal n)
          (
            refl,
            (
              refl,
              (
                refl,
                (
                  refl,
                  (
                    refl,
                    (
                      refl,
                      (
                        refl,
                        (refl, (refl, (refl, (refl, (refl, (refl, (refl, (refl, (refl, tt))))))))),
                      ),
                    ),
                  ),
                ),
              ),
            ),
          )
          (digits-Lacks (decimal n) (laws.digits n))

    lacks_colon : Lacks 58 (text "content-length")
    lacks_colon = (
      refl,
      (
        refl,
        (
          refl,
          (
            refl,
            (refl, (refl, (refl, (refl, (refl, (refl, (refl, (refl, (refl, (refl, tt)))))))))),
          ),
        ),
      ),
    )

abbrev pub status_line : (ℕ → Bytes) → HttpResponse → Bytes
status_line decimal r =
    text "HTTP/"
    ++ (r.version
        ++ (text " " ++ (decimal r.status_code ++ (text " " ++ (r.status_message ++ crlf)))))

fields_lines :
    (decimal : ℕ → Bytes) (hs : List HttpHeader) (body : Bytes)
    → header_lines hs
        ++ (text "content-length: " ++ (decimal (length body) ++ (crlf ++ (crlf ++ body))))
      ≡ lines_of (kept hs ++ content_length decimal (length body) ∷ []) ++ (crlf ++ body)
fields_lines decimal hs body =
    let cl = content_length decimal (length body) in
    rw
      (
        header_lines-kept hs,
        lines_of-append (kept hs) cl,
        append_assoc (lines_of (kept hs)) (line_of cl ++ crlf) (crlf ++ body),
        append_assoc (decimal (length body)) crlf (crlf ++ body),
      )
      refl

status_line-append :
    (decimal : ℕ → Bytes) (r : HttpResponse) (rest : Bytes)
    → status_line decimal r ++ rest
      ≡ text "HTTP/"
        ++ (r.version
            ++ (text " "
                ++ (decimal r.status_code ++ (text " " ++ (r.status_message ++ (crlf ++ rest))))))
status_line-append decimal r rest =
    let message = text " " ++ (r.status_message ++ crlf) in
    rw
      (
        append_assoc r.version (text " " ++ (decimal r.status_code ++ message)) rest,
        append_assoc (decimal r.status_code) message rest,
        append_assoc r.status_message crlf rest,
      )
      refl

serialize-lines :
    (decimal : ℕ → Bytes) (r : HttpResponse)
    → serialize decimal r
      ≡ status_line decimal r
        ++ (lines_of (kept r.headers ++ content_length decimal (length r.response_body) ∷ [])
            ++ (crlf ++ r.response_body))
unfolding serialize
serialize-lines decimal r =
    rw (serialize, fields_lines decimal r.headers r.response_body)
      (sym (
        status_line-append decimal r (
          lines_of (kept r.headers ++ content_length decimal (length r.response_body) ∷ [])
          ++ (crlf ++ r.response_body))))

-- The headers that the loop of `Parse` reads in a response.
serialize-normalized :
    (decimal : ℕ → Bytes) (r : HttpResponse)
    → IsDecimal decimal
    → All IsPlain (kept r.headers)
    → length (serialize decimal r) < 2 ^ 63
    → parse_headers
        (suc (length (serialize decimal r)))
        (serialize decimal r)
        (length (status_line decimal r))
      ≡ headers
          (normalized (kept r.headers ++ content_length decimal (length r.response_body) ∷ []))
serialize-normalized decimal r laws plain short =
    let cl = content_length decimal (length r.response_body) in
    let hs = kept r.headers ++ cl ∷ [] in
    let rest = crlf ++ r.response_body in
    let total =
      ap length (serialize-lines decimal r)
      ∙ length-append (status_line decimal r) (lines_of hs ++ rest) in
    let lines_total = length-append (lines_of hs) rest in
    let each = length-lines_of hs in
    parse_headers-lines_of hs (suc (length (serialize decimal r))) (serialize decimal r)
      (status_line decimal r) r.response_body (length (status_line decimal r))
      (serialize-lines decimal r) (omega arith) refl
      (All-append IsPlain (kept r.headers) (cl ∷ []) plain
        (content_length-IsPlain decimal (length r.response_body) laws, tt))
      short

-- If the names of the headers that a handler sets are in lower case, as the constructor of a header leaves
-- them, then the loop of HttpRequest::Parse reads in the response, after its first line, the headers of
-- the handler but those named content-length, in their order, and then the size of the body as
-- content-length: exactly one of all the headers read has that name. It asks for headers that fit into
-- lines, a response below 2^63 bytes and numbers that are printed as digits.
pub serialize-headers :
    (decimal : ℕ → Bytes) (r : HttpResponse)
    → IsDecimal decimal
    → All IsLower r.headers
    → All IsPlain (kept r.headers)
    → length (serialize decimal r) < 2 ^ 63
    → (hs : List HttpHeader) × ((parse_headers
            (suc (length (serialize decimal r)))
            (serialize decimal r)
            (length (status_line decimal r))
          ≡ headers hs)
        × ((hs ≡ kept r.headers ++ content_length decimal (length r.response_body) ∷ [])
            × (named (text "content-length") hs
                ≡ content_length decimal (length r.response_body) ∷ [])))
unfolding normalize_name
serialize-headers decimal r laws low plain short =
    let cl = content_length decimal (length r.response_body) in
    let hs = kept r.headers ++ cl ∷ [] in
    let lower : All IsLower hs =
      All-append IsLower (kept r.headers) (cl ∷ []) (kept-IsLower r.headers low) (refl, tt) in
    (
      hs,
      (
        serialize-normalized decimal r laws plain short ∙ ap headers (normalized_of_lower hs lower),
        (
          refl,
          named-append (text "content-length") (kept r.headers) (cl ∷ [])
              ∙ rw (named-kept r.headers) refl,
        ),
      ),
    )
