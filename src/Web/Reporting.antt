-- ===== src/Web/Reporting.antt =====
-- `Ip4ToString` of src/web-ui-client/webserver.cpp and `TryToReportErrorToClient` of client_handler.cpp.
use angry_balls.Base.{
  ℕ, zero, suc, ◌+◌, ◌-◌, ◌/◌, ◌%◌, ◌^◌, List, [], ◌∷◌, ◌++◌, take, drop, length, Option, none,
  some, ltb, if◌then◌else◌,
}
use angry_balls.Bytes.{Bytes}
use angry_balls.Web.Http.{text}
use angry_balls.Web.Response.{Sent, sent, closed, interrupted, failed}

-- The four octets of an address, the highest first.
abbrev pub Octets : Type 0
Octets = ℕ × ℕ × ℕ × ℕ

abbrev pub octets_of : ℕ → Octets
octets_of addr = (addr / 2 ^ 24 % 256, addr / 2 ^ 16 % 256, addr / 2 ^ 8 % 256, addr % 256)

-- The loop of `TryToReportErrorToClient`: what reaches the client after these calls of `send`.
unfoldable pub report_from : Bytes → ℕ → Bytes → List Sent → Bytes
report_from body written wire [] = wire
report_from body written wire (sent n ∷ rs) =
    let later = report_from body (written + n) (wire ++ take n (drop written body)) rs in
    if ltb written (length body) then (if ltb 0 n then later else wire) else wire
report_from body written wire (interrupted ∷ rs) =
    let later = report_from body ((written + (2 ^ 64 - 1)) % 2 ^ 64) wire rs in
    if ltb written (length body) then later else wire
report_from body written wire (closed ∷ rs) = wire
report_from body written wire (failed ∷ rs) = wire

-- `decimal` is what a stream prints of an unsigned integer.
module _ (decimal : ℕ → Bytes) where
  -- `Ip4ToString`. The octets are static: those of the first call stay, and are given back.
  unfoldable pub ip4_to_string : Option Octets → ℕ → Bytes × Option Octets
  ip4_to_string octets addr =
      let kept : Octets = elim octets [ none ↦ octets_of addr | some o ↦ o ] in
      let (a, b, c, e) = kept in
      (
        decimal a
            ++ (text "." ++ (decimal b ++ (text "." ++ (decimal c ++ (text "." ++ decimal e))))),
        some kept,
      )

  -- The text of `TryToReportErrorToClient`; a message with a NUL ends there.
  abbrev pub until_nul : Bytes → Bytes
  until_nul [] = []
  until_nul (zero ∷ bs) = []
  until_nul (suc b ∷ bs) = suc b ∷ until_nul bs

  unfoldable pub error_text : ℕ → Bytes → Bytes
  error_text status_code message =
      text "HTTP/1.0 "
      ++ (decimal status_code
          ++ (text " Error\r\n"
              ++ (text "Content-Type: text/plain; charset:utf-8\r\n"
                  ++ (text "Content-Length: "
                      ++ (decimal (1 + length message)
                          ++ (text "\r\n\r\n" ++ (until_nul message ++ text "\n")))))))

  unfoldable pub try_to_report_error_to_client : ℕ → Bytes → List Sent → Bytes
  unfolding error_text report_from
  try_to_report_error_to_client status_code message rs =
      report_from (error_text status_code message) 0 [] rs
