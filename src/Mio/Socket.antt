-- ===== src/Mio/Socket.antt =====
-- include/mio/socket.hpp: `Socket`.
pub mod Opened
use angry_balls.Base.{
  ℕ, zero, suc, List, [], ◌∷◌, Bool, true, false, Option, none, some, ◌==◌, ltb, if◌then◌else◌,
}
use angry_balls.Base.Int.{ℤ, pos, negsuc}
use angry_balls.System.{
  Call, open_socket, get_flags, set_flags, close_fd, receive_from, write_to, Answer, returned,
  fails, System, failed_in_fcntl, failed_to_create, Result, ok, raise, asserts, Action, answer,
  after, pure, call_or, ◌>>=◌, ◌>>◌,
}

pub record Socket : Type 0 where
  pub fd : ℕ
  pub have_resources : Bool

-- `makeNonblocking`; `with_nonblock` sets the bit O_NONBLOCK.
module _ (with_nonblock : ℕ → ℕ) where
  unfoldable pub make_nonblocking : ℕ → Action ℕ
  make_nonblocking fd = do
    flags ← call_or failed_in_fcntl (get_flags fd)
    call_or failed_in_fcntl (set_flags fd (with_nonblock flags))

  -- The constructor from a descriptor. An exception of a constructor runs no destructor of its object.
  unfoldable pub socket_of : ℕ → Bool → Action Socket
  unfolding make_nonblocking
  socket_of fd false = pure (record { fd = fd; have_resources = true })
  socket_of fd true = do make_nonblocking fd; pure (record { fd = fd; have_resources = true })

  -- The constructor that opens a socket.
  unfoldable pub new_socket : Bool → Action Socket
  unfolding socket_of
  new_socket non_blocking = do fd ← call_or failed_to_create open_socket; socket_of fd non_blocking

-- The move constructor: the new socket, and what is left of the other.
unfoldable pub move_socket : Socket → Socket × Socket
move_socket other =
    (record { fd = other.fd; have_resources = true }, record other { have_resources = false })

-- `close`, which may be called again.
unfoldable pub close : Socket → System → Socket × System
close socket s = (record socket { have_resources = false }, after (close_fd socket.fd) s)

-- The destructor.
unfoldable pub destroy : Socket → System → System
destroy socket s = if socket.have_resources then after (close_fd socket.fd) s else s

-- The value of a call, or `-errno`.
abbrev pub minus : ℕ → ℤ
minus zero = pos 0
minus (suc n) = negsuc n

abbrev pub value_or_errno : Answer → ℤ
value_or_errno (returned n) = pos n
value_or_errno (fails errno) = minus errno

-- `recv` and `write`, without the bytes of the buffer.
unfoldable pub recv : ℕ → Socket → Action ℤ
recv buffer_size socket s =
    let c = receive_from socket.fd buffer_size in
    if socket.have_resources then (ok (value_or_errno (answer c s)), after c s) else (asserts, s)

unfoldable pub write : ℕ → Socket → Action ℤ
write buffer_size socket s =
    let c = write_to socket.fd buffer_size in
    if socket.have_resources then (ok (value_or_errno (answer c s)), after c s) else (asserts, s)

unfoldable pub get_descriptor : Socket → ℕ
get_descriptor socket = socket.fd

unfoldable pub is_descriptor : Socket → ℕ → Bool
is_descriptor socket fd = socket.fd == fd

unfoldable pub is_below : Socket → Socket → Bool
is_below socket other = ltb socket.fd other.fd
