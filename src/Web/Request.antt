-- ===== src/Web/Request.antt =====
-- src/web-ui-client/client_handler.cpp: reading a request up to its blank line, and sending the
-- response.
pub mod Header
pub mod Chunks
use angry_balls.Base.{
  ℕ, ◌+◌, ◌-◌, List, [], ◌∷◌, ◌++◌, Bool, Option, none, some, take, drop, length, replicate, ◌==◌,
  if◌then◌else◌,
}
use angry_balls.Bytes.{Bytes}

abbrev pub cr : ℕ
cr = 13

abbrev pub lf : ℕ
lf = 10

pub data DfaStateForHttpRequest : Type 0 where
  initial seen_cr seen_crlf seen_crlfcr seen_crlfcrlf : DfaStateForHttpRequest

-- `DfaStateForHttpRequest_next_state`.
unfoldable pub next_state : DfaStateForHttpRequest → ℕ → DfaStateForHttpRequest
next_state initial next_char = if next_char == cr then seen_cr else initial
next_state seen_cr next_char =
    if next_char == cr then seen_cr else if next_char == lf then seen_crlf else initial
next_state seen_crlf next_char =
    if next_char == cr then seen_crlfcr else if next_char == lf then initial else initial
next_state seen_crlfcr next_char =
    if next_char == cr then seen_cr else if next_char == lf then seen_crlfcrlf else initial
next_state seen_crlfcrlf next_char = seen_crlfcrlf

-- How the `for` over the buffer ends: after so many bytes with a whole request, or in a state.
pub data Scanned : Type 0 where
  complete : ℕ → Scanned
  in_state : DfaStateForHttpRequest → Scanned

abbrev pub one_further : Scanned → Scanned
one_further (complete n) = complete (n + 1)
one_further (in_state s) = in_state s

-- One test of the loop: return, or go on with the rest.
abbrev pub scan_on : (DfaStateForHttpRequest → Scanned) → DfaStateForHttpRequest → Scanned
scan_on rest seen_crlfcrlf = complete 1
scan_on rest s = one_further (rest s)

unfoldable pub scan : Bytes → DfaStateForHttpRequest → Scanned
scan [] dfa = in_state dfa
scan (b ∷ bs) dfa = scan_on (scan bs) (next_state dfa b)

-- What a call of `read` brings: bytes, the end of the stream, EINTR or another error.
pub data Read : Type 0 where
  bytes : Bytes → Read
  closed interrupted failed : Read

-- How `ReadHttpRequest` ends, or that it waits with what it has so far. `out_of_range` is thrown by
-- `buf.at`.
pub data Request : Type 0 where
  request : Bytes → Request
  error out_of_range : Request
  waiting : Bytes → DfaStateForHttpRequest → Request

abbrev pub buffer_size : ℕ
buffer_size = 16384

-- The loop, on the calls of `read` to come. `buf` keeps the bytes of earlier calls behind those of
-- the last; after EINTR the length is -1 as a `size_t`, and the scan runs over all of it.
unfoldable pub read_from : DfaStateForHttpRequest → Bytes → Bytes → List Read → Request
read_from dfa result buf [] = waiting result dfa
read_from dfa result buf (closed ∷ rs) = error
read_from dfa result buf (failed ∷ rs) = error
read_from dfa result buf (interrupted ∷ rs) = elim (scan buf dfa) [
  | complete n ↦ request (result ++ take n buf)
  | in_state s ↦ out_of_range
]
read_from dfa result buf (bytes chunk ∷ rs) =
    let filled = chunk ++ drop (length chunk) buf in
    elim (scan chunk dfa) [
      | complete n ↦ request (result ++ take n filled)
      | in_state s ↦ read_from s (result ++ take (length chunk) filled) filled rs
    ]

unfoldable pub read_http_request : List Read → Request
read_http_request rs = read_from initial [] (replicate buffer_size 0) rs
