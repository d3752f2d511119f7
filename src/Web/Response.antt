-- ===== src/Web/Response.antt =====
-- `ClientHandler::SendHttpResponse` of src/web-ui-client/client_handler.cpp.
pub mod Sending
use angry_balls.Base.{
  ℕ, ◌+◌, ◌-◌, ◌%◌, ◌^◌, List, [], ◌∷◌, ◌++◌, take, drop, length, ltb, if◌then◌else◌,
}
use angry_balls.Bytes.{Bytes}

-- What a call of `send` brings: so many bytes taken, zero, EINTR or another error.
pub data Sent : Type 0 where
  sent : ℕ → Sent
  closed interrupted failed : Sent

-- `Ok` with what the peer got, an error, or that the loop goes on after the calls given.
pub data Response : Type 0 where
  ok : Bytes → Response
  error : Response
  sending : Bytes → Response

-- The loop; after EINTR `written` goes up by -1, modulo 2^64.
unfoldable pub send_from : Bytes → ℕ → Bytes → List Sent → Response
send_from response written wire [] = if ltb written (length response) then sending wire else ok wire
send_from response written wire (sent n ∷ rs) =
    let later = send_from response (written + n) (wire ++ take n (drop written response)) rs in
    if ltb written (length response) then later else ok wire
send_from response written wire (interrupted ∷ rs) =
    let later = send_from response ((written + (2 ^ 64 - 1)) % 2 ^ 64) wire rs in
    if ltb written (length response) then later else ok wire
send_from response written wire (closed ∷ rs) =
    if ltb written (length response) then error else ok wire
send_from response written wire (failed ∷ rs) =
    if ltb written (length response) then error else ok wire

unfoldable pub send_http_response : Bytes → List Sent → Response
unfolding send_from
send_http_response response rs = send_from response 0 [] rs
