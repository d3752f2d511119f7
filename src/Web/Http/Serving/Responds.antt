-- ===== src/Web/Http/Serving/Responds.antt =====
-- `Serve` from the request to the last byte of the response.
use angry_balls.Base.{ℕ, ◌^◌, ◌<◌, List, Option, some, All, map, sum, length, ◌≡◌, refl}
use angry_balls.Bytes.{Bytes}
use angry_balls.Web.Http.Message.{HttpHeader, HttpRequest, parse_request_line, serialize}
use angry_balls.Web.Http.Message.Lines.{Lacks, IsPlain, normalized}
use angry_balls.Web.Http.Message.Requests.{request_text, parse_request-request_text}
use angry_balls.Web.Http.Serving.{Handler, response_to, responded, serve}
use angry_balls.Web.Request.{Read, request, read_http_request}
use angry_balls.Web.Response.{sent, ok}
use angry_balls.Web.Response.Sending.{send_http_response_complete}

-- When the request that was read is a first line that can be parsed and headers that fit into lines, below
-- 2^63 bytes, and the calls of send take portions of at least a byte that add up to the response, then
-- Serve ends, and the client gets the whole response: that of the handler which the table has for the
-- path, or the default one, to the request with exactly these headers, their names in lower case.
pub serve-response_to :
    (stoul : Bytes → Option ℕ) (decimal : ℕ → Bytes) (url_handlers : Bytes → Option Handler)
    (reads : List Read) (req_line : Bytes) (hs : List HttpHeader)
    (parsed_line : List HttpHeader → HttpRequest) (ns : List ℕ)
    → read_http_request reads ≡ request (request_text req_line hs)
    → Lacks 13 req_line
    → parse_request_line stoul req_line ≡ some parsed_line
    → All IsPlain hs
    → length (request_text req_line hs) < 2 ^ 63
    → All (λ n. 0 < n) ns
    → sum ns ≡ length (serialize decimal (response_to url_handlers (parsed_line (normalized hs))))
    → serve stoul decimal url_handlers reads (map sent ns)
      ≡ responded (ok (serialize decimal (response_to url_handlers (parsed_line (normalized hs)))))
unfolding serve
serve-response_to stoul decimal url_handlers reads req_line hs parsed_line ns came one_line first
      plain short portions total =
    let r = parsed_line (normalized hs) in
    let read =
      parse_request-request_text stoul req_line hs parsed_line one_line first plain short in
    let all =
      send_http_response_complete (serialize decimal (response_to url_handlers r)) ns portions
        total in
    rw (serve, came, read, all) refl
