-- ===== src/Web/Http/Message.antt =====
-- `HttpHeader`, `HttpRequest::Parse` and `HttpResponse::Serialize` of src/web-ui-client/http.cpp and
-- webserver.h.
pub mod Lines
pub mod Kept
pub mod Framed
pub mod Requests
use angry_balls.Base.{
  ℕ, zero, suc, ◌+◌, ◌-◌, ◌^◌, List, [], ◌∷◌, ◌++◌, Bool, ◌&&◌, ◌||◌, Option, none, some, map,
  length, ltb, leb, ◌==◌, if◌then◌else◌,
}
use angry_balls.Bytes.{Bytes}
use angry_balls.Web.Http.{◌>>=◌, npos, size_t, text, bytes_eq, find, substr}
use angry_balls.Web.Http.Url.{Url, parse_url}

pub record HttpHeader : Type 0 where
  pub name : Bytes
  pub value : Bytes

-- `tolower` in the C locale.
abbrev pub tolower : ℕ → ℕ
tolower c = if leb 65 c && leb c 90 then c + 32 else c

unfoldable pub normalize_name : Bytes → Bytes
normalize_name name = map tolower name

-- The constructor of a header.
unfoldable pub http_header : Bytes → Bytes → HttpHeader
unfolding normalize_name
http_header name value = record { name = normalize_name name; value = value }

pub record HttpRequest : Type 0 where
  pub verb : Bytes
  pub version : Bytes
  pub url : Url
  pub headers : List HttpHeader

pub record HttpResponse : Type 0 where
  pub version : Bytes
  pub status_code : ℕ
  pub status_message : Bytes
  pub headers : List HttpHeader
  pub response_body : Bytes

abbrev pub is_blank : ℕ → Bool
is_blank c = (c == 32) || (c == 9)

-- `isspace` in the C locale, which ends a word.
abbrev pub is_space : ℕ → Bool
is_space c = (c == 32) || (leb 9 c && leb c 13)

-- `stream >> word`: the word and what is left.
abbrev skip_spaces : Bytes → Bytes
skip_spaces [] = []
skip_spaces (c ∷ s) = let later = skip_spaces s in if is_space c then later else c ∷ s

abbrev word_of : Bytes → Bytes × Bytes
word_of [] = ([], [])
word_of (c ∷ s) =
    let (word, rest) = word_of s in if is_space c then ([], c ∷ s) else (c ∷ word, rest)

unfoldable pub next_word : Bytes → Bytes × Bytes
next_word s = word_of (skip_spaces s)

-- The loops over `value_start` and `value_end`.
unfoldable pub trim_left : Bytes → Bytes
trim_left [] = []
trim_left (c ∷ s) = let later = trim_left s in if is_blank c then later else c ∷ s

abbrev pub keep_end : ℕ → Bytes → Bytes
keep_end c [] = if is_blank c then [] else c ∷ []
keep_end c (b ∷ s) = c ∷ b ∷ s

unfoldable pub trim_right : Bytes → Bytes
trim_right [] = []
trim_right (c ∷ s) = keep_end c (trim_right s)

-- A line of the headers. Without a colon its name is the whole line, and so is its value.
unfoldable pub parse_header : Bytes → Option HttpHeader
unfolding trim_left trim_right http_header
parse_header header_line = do
  let colon_pos = find (text ":") header_line 0
  header_name ← substr header_line 0 colon_pos
  value ← substr header_line (size_t (colon_pos + 1)) npos
  some (http_header header_name (trim_right (trim_left value)))

abbrev pub crlf : Bytes
crlf = 13 ∷ 10 ∷ []

-- The headers, an exception of `substr`, or that the loop goes on after the rounds given.
pub data Headers : Type 0 where
  headers : List HttpHeader → Headers
  throws : Headers
  reading : Headers

abbrev pub one_more : HttpHeader → Headers → Headers
one_more h (headers hs) = headers (h ∷ hs)
one_more h throws = throws
one_more h reading = reading

-- The loop of `Parse` from `line_start` on.
unfoldable pub parse_headers : ℕ → Bytes → ℕ → Headers
unfolding parse_header
parse_headers zero body line_start = reading
parse_headers (suc rounds) body line_start =
    let line_end = find crlf body line_start in
    let later = parse_headers rounds body (size_t (line_end + 2)) in
    let line : Option HttpHeader = do
      header_line ← substr body line_start (size_t (line_end + 2 ^ 64 - line_start))
      parse_header header_line
    in if line_start == line_end
      then headers []
      else elim line [ none ↦ throws | some h ↦ one_more h later ]

-- The request, an exception, or that the loop goes on.
pub data ParsedRequest : Type 0 where
  parsed : HttpRequest → ParsedRequest
  throws running : ParsedRequest

module _ (stoul : Bytes → Option ℕ) where
  -- The first line of `Parse`.
  unfoldable pub parse_request_line : Bytes → Option (List HttpHeader → HttpRequest)
  unfolding next_word
  parse_request_line req_line =
      let (verb, after_verb) = next_word req_line in
      let (url, after_url) = next_word after_verb in
      let (http_and_version, _) = next_word after_url in
      do
        parsed_url ← parse_url stoul url
        version ← substr http_and_version (size_t (find (text "/") http_and_version 0 + 1)) npos
        some (λ hs. record { verb = verb; version = version; url = parsed_url; headers = hs })

  -- `HttpRequest::Parse`, with a round of its loop for each byte at most.
  unfoldable pub parse_request : Bytes → ParsedRequest
  unfolding parse_request_line
  parse_request body =
      let line_end = find crlf body 0 in
      elim (substr body 0 line_end >>= parse_request_line) [
        | none ↦ throws
        | some request ↦ elim (parse_headers (suc (length body)) body (size_t (line_end + 2))) [
          | headers hs ↦ parsed (request hs)
          | throws ↦ throws
          | reading ↦ running
        ]
      ]

-- The loop of `Serialize` over the headers.
unfoldable pub header_lines : List HttpHeader → Bytes
header_lines [] = []
header_lines (h ∷ hs) =
    let rest = header_lines hs in
    if bytes_eq h.name (text "content-length")
    then rest
    else (h.name ++ (text ": " ++ (h.value ++ (crlf ++ rest))))

-- `Serialize`; `decimal` is what a stream prints of an unsigned integer.
unfoldable pub serialize : (ℕ → Bytes) → HttpResponse → Bytes
unfolding header_lines
serialize decimal r =
    text "HTTP/"
    ++ (r.version
        ++ (text " "
            ++ (decimal r.status_code
                ++ (text " "
                    ++ (r.status_message
                        ++ (crlf
                            ++ (header_lines r.headers
                                ++ (text "content-length: "
                                    ++ (decimal (length r.response_body)
                                        ++ (crlf ++ (crlf ++ r.response_body)))))))))))
