-- ===== src/Web/Response/Sending.antt =====
-- When the whole response is sent, and when none of it is.
use angry_balls.Base.{
  ℕ, ◌+◌, ◌-◌, ◌^◌, ◌<◌, ◌≤◌, List, [], ◌∷◌, All, map, take, take_all, take_plus, sum, length, ltb,
  ◌≡◌, refl, true, false, arith,
}
use angry_balls.Bytes.{Bytes}
use angry_balls.Web.Response.{
  Sent, sent, closed, interrupted, failed, ok, send_from, send_http_response,
}

send_from_complete :
    (response : Bytes) (written : ℕ) (ns : List ℕ)
    → All (λ n. 0 < n) ns
    → written + sum ns ≡ length response
    → send_from response written (take written response) (map sent ns) ≡ ok response
unfolding send_from
send_from_complete response written [] h e =
    let end : ltb written (length response) ≡ false = ground arith in
    rw (send_from, end, take_all response written (omega arith)) refl
send_from_complete response written (n ∷ ns) (h, hs) e =
    let more : ltb written (length response) ≡ true = ground arith in
    rw (send_from, more, take_plus written n response)
      (send_from_complete response (written + n) ns hs (omega arith))

-- Without errors the peer gets the whole response, in whatever portions the calls take it.
pub send_http_response_complete :
    (response : Bytes) (ns : List ℕ)
    → All (λ n. 0 < n) ns
    → sum ns ≡ length response
    → send_http_response response (map sent ns) ≡ ok response
unfolding send_http_response
send_http_response_complete response ns h e = send_from_complete response 0 ns h (omega arith)

send_from_end :
    (response : Bytes) (written : ℕ) (wire : Bytes) (rs : List Sent)
    → length response ≤ written
    → send_from response written wire rs ≡ ok wire
unfolding send_from
send_from_end response written wire [] h = ground arith
send_from_end response written wire (sent n ∷ rs) h = ground arith
send_from_end response written wire (interrupted ∷ rs) h = ground arith
send_from_end response written wire (closed ∷ rs) h = ground arith
send_from_end response written wire (failed ∷ rs) h = ground arith

-- If the first call is interrupted by a signal, the handler reports success and nothing is sent,
-- whatever the later calls would bring; for a response of at least one and fewer than 2^64 bytes.
pub send_http_response_interrupted :
    (response : Bytes) (rs : List Sent)
    → 0 < length response
    → length response < 2 ^ 64
    → send_http_response response (interrupted ∷ rs) ≡ ok []
unfolding send_http_response send_from
send_http_response_interrupted response rs h k =
    let more : ltb 0 (length response) ≡ true = ground arith in
    rw (send_from, more) (send_from_end response (2 ^ 64 - 1) [] rs (omega arith))
