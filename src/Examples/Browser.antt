-- ===== src/Examples/Browser.antt =====
-- A page that the web server sends; and what the predictive strategy finds on a field.
use angry_balls.Base.{
  ℕ, zero, suc, ◌+◌, ◌/◌, ◌%◌, [], ◌∷◌, ◌++◌, All, Bool-cases, inl, inr, ltb, length, ◌≡◌, refl,
  arith, if◌then◌else◌, map, Option, none, some, List,
}
use angry_balls.Bytes.{Bytes}
use angry_balls.Double
use angry_balls.Double.Fixed.{fixed}
use angry_balls.Web.Http.{text}
use angry_balls.Web.Http.Message.{
  HttpResponse, headers, parse_headers, header_lines, serialize, trim_left, trim_right,
}
use angry_balls.Web.Http.Message.Framed.{
  IsDigit, IsDecimal, content_length, status_line, serialize-headers,
}
use angry_balls.Web.Http.Message.Kept.{kept, named, http_header-IsLower}
use angry_balls.Web.Http.{find, find_from, substr}
use angry_balls.Web.Http.Url.{parse_url, split_query}
use angry_balls.Web.Http.Message.{HttpRequest, parse_request_line, next_word}
use angry_balls.Web.Http.Message.Requests.{request_text}
use angry_balls.Web.Http.Serving.{Handler, responded, serve}
use angry_balls.Web.Http.Serving.Responds.{serve-response_to}
use angry_balls.Web.Request.{bytes, request, read_http_request, read_from, scan, next_state}
use angry_balls.Web.Response.{sent, ok}
use angry_balls.Web.Http.Message.{HttpHeader, http_header, normalize_name}
use angry_balls.Strategies.Predictive.Search.{player_accelerations, get_best_move}
use angry_balls.Strategies.Predictive.First.{IsFirst, get_best_move-IsFirst}
use angry_balls.Examples.Data.{field, player_at_x}

-- The digits of a number of at most as many digits as there are rounds.
abbrev digits_from : ℕ → ℕ → Bytes → Bytes
digits_from zero n rest = rest
digits_from (suc rounds) n rest =
    let with_last : Bytes = (48 + n % 10) ∷ rest in
    let more = digits_from rounds (n / 10) with_last in if ltb n 10 then with_last else more

abbrev decimal : ℕ → Bytes
decimal n = digits_from 20 n []

digits_from-digits :
    (rounds n : ℕ) (rest : Bytes) → All IsDigit rest → All IsDigit (digits_from rounds n rest)
digits_from-digits zero n rest h = h
digits_from-digits (suc rounds) n rest h =
    let now : All IsDigit ((48 + n % 10) ∷ rest) = ((omega arith, omega arith), h) in
    let later = digits_from-digits rounds (n / 10) ((48 + n % 10) ∷ rest) now in
    elim (Bool-cases (ltb n 10)) [ inl e ↦ rw (e) now | inr e ↦ rw (e) later ]

decimal-IsDecimal : IsDecimal decimal
decimal-IsDecimal = record { digits = λ n. digits_from-digits 20 n [] tt }

abbrev page : HttpResponse
page = record {
  version = text "1.0";
  status_code = 200;
  status_message = text "OK";
  headers =
      record { name = text "content-length"; value = text "77" }
      ∷ record { name = text "a"; value = text "b" }
      ∷ [];
  response_body = text "hi";
}

-- The same with headers that the constructor makes.
abbrev made_page : HttpResponse
made_page = record page {
  headers =
      http_header (text "Content-Length") (text "77") ∷ http_header (text "A") (text "b") ∷ [];
}

serialize-headers_example :
    (hs : List HttpHeader) × ((parse_headers
          (suc (length (serialize decimal made_page)))
          (serialize decimal made_page)
          (length (status_line decimal made_page))
        ≡ headers hs)
      × ((hs ≡ kept made_page.headers ++ content_length decimal 2 ∷ [])
          × (named (text "content-length") hs ≡ content_length decimal 2 ∷ [])))
unfolding serialize header_lines trim_left trim_right http_header normalize_name
serialize-headers_example =
    serialize-headers decimal made_page decimal-IsDecimal
      (
        http_header-IsLower (text "Content-Length") (text "77"),
        (http_header-IsLower (text "A") (text "b"), tt),
      )
      (
        record {
          one_line = (refl, (refl, (refl, (refl, tt))));
          no_colon = (refl, tt);
          no_blank_before = refl;
          no_blank_after = refl;
        },
        tt,
      )
      (omega arith)

get_best_move-IsFirst_example :
    IsFirst Double.zero field
      (player_at_x 0 0)
      player_accelerations
      0
      100
      (get_best_move Double.zero field (player_at_x 0 0))
get_best_move-IsFirst_example = get_best_move-IsFirst Double.zero field (player_at_x 0 0)

abbrev line : Bytes
line = text "GET / HTTP/1.0"

abbrev fields : List HttpHeader
fields = record { name = text "A"; value = text "b" } ∷ []

-- Every path has the page.
abbrev table : Bytes → Option Handler
table path = some (λ req. page)

-- No URL here has a port.
abbrev no_number : Bytes → Option ℕ
no_number digits = none

abbrev parsed_line : List HttpHeader → HttpRequest
parsed_line hs = record {
  verb = text "GET";
  version = text "1.0";
  url = record { scheme = []; host = []; port = 0; absolute_path = text "/"; query = [] };
  headers = hs;
}

line-parsed : parse_request_line no_number line ≡ some parsed_line
unfolding parse_request_line next_word parse_url split_query find find_from substr
line-parsed = refl

request_text-read :
    read_http_request (bytes (request_text line fields) ∷ []) ≡ request (request_text line fields)
unfolding read_http_request read_from scan next_state
request_text-read = refl

serve-response_to_example :
    serve no_number decimal table (bytes (request_text line fields) ∷ []) (map sent (40 ∷ 6 ∷ []))
    ≡ responded (ok (serialize decimal page))
unfolding serialize header_lines trim_left trim_right
serve-response_to_example =
    serve-response_to no_number decimal table (bytes (request_text line fields) ∷ []) line fields
      parsed_line (40 ∷ 6 ∷ []) request_text-read
      (
        refl,
        (
          refl,
          (
            refl,
            (
              refl,
              (refl, (refl, (refl, (refl, (refl, (refl, (refl, (refl, (refl, (refl, tt)))))))))),
            ),
          ),
        ),
      )
      line-parsed
      (
        record {
          one_line = (refl, (refl, (refl, (refl, tt))));
          no_colon = (refl, tt);
          no_blank_before = refl;
          no_blank_after = refl;
        },
        tt,
      )
      (omega arith) (omega arith, (omega arith, tt)) refl
