-- ===== src/Web/Http/Message/Requests.antt =====
-- A request with its first line and its headers, as a client writes it.
use angry_balls.Base.{
  ℕ, suc, ◌+◌, ◌^◌, ◌<◌, List, [], ◌++◌, All, Option, some, length, length-append, append_assoc,
  ◌≡◌, refl, sym, ◌∙◌, arith,
}
use angry_balls.Bytes.{Bytes}
use angry_balls.Web.Http.{size_t, find, substr}
use angry_balls.Web.Http.Message.{
  HttpHeader, HttpRequest, crlf, parsed, parse_request_line, parse_request,
}
use angry_balls.Web.Http.Message.Lines.{
  Lacks, IsPlain, lines_of, normalized, find-crlf, substr-middle, parse_headers-lines_of,
}
use angry_balls.Web.Http.Message.Framed.{length-lines_of}

abbrev pub request_text : Bytes → List HttpHeader → Bytes
request_text req_line hs = req_line ++ (crlf ++ (lines_of hs ++ (crlf ++ [])))

pub parse_request-request_text :
    (stoul : Bytes → Option ℕ) (req_line : Bytes) (hs : List HttpHeader)
    (request : List HttpHeader → HttpRequest)
    → Lacks 13 req_line
    → parse_request_line stoul req_line ≡ some request
    → All IsPlain hs
    → length (request_text req_line hs) < 2 ^ 63
    → parse_request stoul (request_text req_line hs) ≡ parsed (request (normalized hs))
unfolding parse_request find
parse_request-request_text stoul req_line hs request one_line first plain short =
    let body = request_text req_line hs in
    let rest = lines_of hs ++ (crlf ++ []) in
    let total = length-append req_line (crlf ++ rest) in
    let lines_total = length-append (lines_of hs) (crlf ++ []) in
    let each = length-lines_of hs in
    let end : find crlf body 0 ≡ length req_line =
      find-crlf req_line rest 0 one_line ∙ omega arith in
    let cut : substr body 0 (length req_line) ≡ some req_line =
      substr-middle [] req_line (crlf ++ rest) 0 (length req_line) refl refl in
    let start : size_t (length req_line + 2) ≡ length (req_line ++ crlf) =
      omega (arith, length-append req_line crlf) in
    let read =
      parse_headers-lines_of hs (suc (length body)) body (req_line ++ crlf) []
        (size_t (length req_line + 2)) (sym (append_assoc req_line crlf rest)) (omega arith) start
        plain short in
    rw (parse_request, end, cut, first, end, read) refl
