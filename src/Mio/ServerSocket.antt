-- ===== src/Mio/ServerSocket.antt =====
-- include/mio/internet_address.hpp, server_socket.hpp and client_socket.hpp.
pub mod Opened
use Prim.Native.String.{String}
use angry_balls.Base.{
  ℕ, ◌+◌, ◌-◌, ◌%◌, ◌^◌, Bool, true, false, ◌&&◌, ◌||◌, Option, none, some, ◌==◌, if◌then◌else◌,
}
use angry_balls.Base.Int.{ℤ, pos, negsuc}
use angry_balls.System.{
  Address, set_reuse_address, bind_to, listen_on, accept_on, connect_to, look_up, Answer, returned,
  fails, System, Exception, failed_to_set_options, failed_to_bind, failed_to_listen,
  failed_to_accept, failed_to_connect, failed_to_get_host, failed_to_get_ip, raise, Action, answer,
  after, call, pure, throw, on_unwinding, call_or, ◌>>=◌, ◌>>◌,
}
use angry_balls.Mio.Socket.{Socket, socket_of, new_socket, destroy}

-- What the code uses of the C library: the bit O_NONBLOCK, EAGAIN and EWOULDBLOCK, EINPROGRESS,
-- `inet_addr`, and `inet_aton` of the text that `inet_ntoa` makes.
pub record Library : Type 0 where
  pub with_nonblock : ℕ → ℕ
  pub eagain : ℕ
  pub ewouldblock : ℕ
  pub einprogress : ℕ
  pub inet_addr : String → ℕ
  pub inet_ntoa : ℕ → String
  pub inet_aton : String → Option ℕ

-- `htons` of an `int`, in the order of the host.
abbrev pub to_port : ℤ → ℕ
to_port (pos n) = n % 2 ^ 16
to_port (negsuc n) = 2 ^ 16 - 1 - n % 2 ^ 16

-- A server socket with its base.
pub record ServerSocket : Type 0 where
  pub socket : Socket
  pub non_blocking : Bool

module _ (c : Library) where
  unfoldable pub get_address_by_ip : String → ℤ → Address
  get_address_by_ip ip port = record { ip = c.inet_addr ip; port = to_port port }

  unfoldable pub get_address_by_hostname : String → ℤ → Action Address
  get_address_by_hostname hostname port = do
    h ← call_or failed_to_get_host (look_up hostname)
    elim (c.inet_aton (c.inet_ntoa h)) [
      | none ↦ throw failed_to_get_ip
      | some ip ↦ pure (record { ip = ip; port = to_port port })
    ]

  unfoldable pub set_reuse_address_of : ℕ → Action ℕ
  set_reuse_address_of fd = do call_or failed_to_set_options (set_reuse_address fd); pure fd

  unfoldable pub bind_to_address : ℕ → Address → Action ℕ
  bind_to_address fd address = call_or failed_to_bind (bind_to fd address)

  unfoldable pub listen_to : ℕ → Action ℕ
  listen_to fd = call_or failed_to_listen (listen_on fd 4096)

  -- The body of the constructor of `ServerSocket`.
  unfoldable pub set_up : String → ℤ → ℕ → Action ℕ
  unfolding set_reuse_address_of bind_to_address listen_to get_address_by_ip
  set_up ip port fd = do
    set_reuse_address_of fd
    bind_to_address fd (get_address_by_ip ip port)
    listen_to fd

  -- The constructor. When its body throws, the destructor of the base runs.
  unfoldable pub server_socket : String → ℤ → Bool → Action ServerSocket
  unfolding set_up
  server_socket ip port non_blocking = do
    socket ← new_socket c.with_nonblock true
    (λ s. on_unwinding (destroy socket) (set_up ip port socket.fd s))
    pure (record { socket = socket; non_blocking = non_blocking })

  -- `acceptNewConnection`: a socket, or `none` when no connection waits.
  unfoldable pub by_accepted : Bool → Answer → Action (Option Socket)
  by_accepted non_blocking (returned new_fd) = do
    socket ← socket_of c.with_nonblock new_fd non_blocking
    pure (some socket)
  by_accepted non_blocking (fails errno) =
      if non_blocking && (errno == c.eagain || errno == c.ewouldblock)
      then pure none
      else throw failed_to_accept

  unfoldable pub accept_new_connection : ServerSocket → Action (Option Socket)
  unfolding by_accepted
  accept_new_connection listening = do
    new_fd ← call (accept_on listening.socket.fd)
    by_accepted listening.non_blocking new_fd

  -- `connectToHost` and the constructor of `ClientSocket`.
  unfoldable pub by_connected : Answer → Action ℕ
  by_connected (returned n) = pure n
  by_connected (fails errno) = if errno == c.einprogress then pure 0 else throw failed_to_connect

  unfoldable pub connect_to_host : String → ℕ → Action ℕ
  unfolding get_address_by_hostname by_connected
  connect_to_host hostname fd = do
    address ← get_address_by_hostname hostname (pos 80)
    connect_result ← call (connect_to fd address)
    by_connected connect_result

  unfoldable pub client_socket : String → Action Socket
  unfolding connect_to_host
  client_socket hostname = do
    socket ← new_socket c.with_nonblock true
    (λ s. on_unwinding (destroy socket) (connect_to_host hostname socket.fd s))
    pure socket
