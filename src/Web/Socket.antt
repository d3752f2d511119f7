-- ===== src/Web/Socket.antt =====
-- `Socket` of src/web-ui-client/socket.cpp, and `SocketAccept` with the loop of webserver.cpp.
pub mod Ownership
use angry_balls.Base.{
  ℕ, List, [], ◌∷◌, ◌++◌, Bool, true, false, Option, none, some, ◌==◌, if◌then◌else◌,
}

pub record Socket : Type 0 where
  pub has_fd : Bool
  pub fd : ℕ

-- A socket after a call, with the descriptors that the call has closed.
pub record Called : Type 0 where
  pub socket : Socket
  pub closed : List ℕ

-- The two constructors.
unfoldable pub socket_without_fd : Socket
socket_without_fd = record { has_fd = false; fd = 0 }

unfoldable pub socket_of : ℕ → Socket
socket_of fd = record { has_fd = true; fd = fd }

unfoldable pub get_fd : Socket → ℕ
get_fd s = s.fd

-- `Close`; `none` is the exception. A failure of `close` is only reported.
unfoldable pub close : Socket → Option Called
unfolding socket_without_fd
close s =
    if s.has_fd then some (record { socket = socket_without_fd; closed = s.fd ∷ [] }) else none

-- `Set`, and the destructor.
unfoldable pub set_fd : ℕ → Socket → Called
unfolding socket_of
set_fd fd_other s =
    if s.has_fd
    then record { socket = socket_of fd_other; closed = s.fd ∷ [] }
    else record { socket = socket_of fd_other; closed = [] }

unfoldable pub destroy : Socket → List ℕ
destroy s = if s.has_fd then s.fd ∷ [] else []

-- `Disown`, which hands the descriptor over; `none` is the exception.
unfoldable pub disown : Socket → Option (ℕ × Socket)
unfolding socket_without_fd
disown s = if s.has_fd then some (s.fd, socket_without_fd) else none

-- What `SocketAccept` does to a socket: the socket with what was closed, and whether it succeeds.
-- `accepted` is the descriptor that `accept` brings, `none` when it fails, and `length_matches` says that
-- the length of the address is the one expected.
unfoldable pub socket_accept : Option ℕ → Bool → Socket → Called × Bool
unfolding set_fd destroy disown socket_of
socket_accept none length_matches result_socket =
    (record { socket = result_socket; closed = [] }, false)
socket_accept (some fd) false result_socket =
    (record { socket = result_socket; closed = destroy (socket_of fd) }, false)
socket_accept (some fd) true result_socket = elim (disown (socket_of fd)) [
  | none ↦ (record { socket = result_socket; closed = [] }, false)
  | some (own, left) ↦
      let set = set_fd own result_socket in
      (record { socket = set.socket; closed = set.closed ++ destroy left }, true)
]

-- A round of `AcceptLoop`: the descriptor that goes to a handler, if one does, and those closed.
unfoldable pub accept_round : Option ℕ → Bool → Option ℕ × List ℕ
unfolding socket_accept socket_without_fd disown destroy
accept_round accepted length_matches =
    let (called, success) = socket_accept accepted length_matches socket_without_fd in
    let failed : Option ℕ × List ℕ = (none, called.closed ++ destroy called.socket) in
    let handed : Option ℕ × List ℕ = elim (disown called.socket) [
      | none ↦ (none, called.closed ++ destroy called.socket)
      | some (fd, left) ↦ (some fd, called.closed ++ destroy left)
    ] in
    if success then handed else failed
