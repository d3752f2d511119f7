-- ===== src/Web/Listening.antt =====
-- How src/web-ui-client opens its sockets: `WebServer::StartListening` and `Run` of webserver.cpp, and
-- `ConnectSocket` of viewer_client.cpp. The port is in the order of the host.
pub mod Owned
pub mod Outcomes
use Prim.Native.String.{String, ◌++◌ as append}
use angry_balls.Base.{
  ℕ, zero, suc, List, [], ◌∷◌, Bool, true, false, Option, none, some, if◌then◌else◌,
}
use angry_balls.System.{
  Call, open_socket, set_reuse_address, bind_to, listen_on, connect_to, look_up, close_fd, Answer,
  returned, fails, System, answer, after,
}
use angry_balls.Web.Socket.{Socket, set_fd, socket_without_fd, destroy}
use angry_balls.Web.Options.{WebServerOptions}

pub record ErrorValue : Type 0 where
  pub success : Bool
  pub message : String

-- `ErrorValue::Ok` and `ErrorValue::Error`.
abbrev pub ok : ErrorValue
ok = record { success = true; message = "" }

abbrev pub error : String → ErrorValue
error message = record { success = false; message = message }

-- The socket and the system after a call that returns an `ErrorValue`.
pub record Tried : Type 0 where
  pub error_value : ErrorValue
  pub socket : Socket
  pub system : System

-- The descriptors that the socket has closed.
abbrev pub close_all : List ℕ → System → System
close_all [] s = s
close_all (fd ∷ fds) s = close_all fds (after (close_fd fd) s)

-- A call whose error is returned, and what follows it.
abbrev pub then_try : Tried → (Socket → System → Tried) → Tried
then_try t next =
    let onward = next (t.socket) (t.system) in if t.error_value.success then onward else t

-- The members of the web server that the opening of its socket uses.
module _ (strerror : ℕ → String) where
  -- `ErrorFromErrno`.
  abbrev pub error_from_errno : String → ℕ → ErrorValue
  error_from_errno message errno = error (append message (append ". " (strerror errno)))

  -- A call of the system, and the error for its failure.
  abbrev pub checked : String → Answer → Socket → System → Tried
  checked message (returned n) socket s = record { error_value = ok; socket = socket; system = s }
  checked message (fails errno) socket s = record {
    error_value = error_from_errno message errno;
    socket = socket;
    system = s;
  }

  abbrev pub try_call : String → Call → Socket → System → Tried
  try_call message c socket s = checked message (answer c s) socket (after c s)

  -- The descriptor that `socket` brings goes to the socket, which closes the one it had.
  unfoldable pub set_opened : Answer → Socket → System → Tried
  unfolding set_fd
  set_opened (returned fd) socket s =
      let set = set_fd fd socket in
      record { error_value = ok; socket = set.socket; system = close_all (set.closed) s }
  set_opened (fails errno) socket s = record {
    error_value = error_from_errno "Failed to open socket: " errno;
    socket = socket;
    system = s;
  }

  unfoldable pub create_listen_socket : Socket → System → Tried
  unfolding set_opened
  create_listen_socket socket s = set_opened (answer open_socket s) socket (after open_socket s)

  unfoldable pub bind_listen_socket : WebServerOptions → Socket → System → Tried
  bind_listen_socket options socket s =
      then_try
        (try_call "Failed to set option SO_REUSEADDR on socket: " (set_reuse_address (socket.fd))
          socket s)
        (λ socket s.
          try_call "Failed to bind socket: "
            (bind_to (socket.fd) (record { ip = 0; port = options.listen_port })) socket s)

  unfoldable pub listen_on_socket : Socket → System → Tried
  listen_on_socket socket s =
      try_call "Failed to listen on server socket: " (listen_on (socket.fd) 5) socket s

  unfoldable pub start_listening : WebServerOptions → Socket → System → Tried
  start_listening options socket s = then_try (create_listen_socket socket s) (λ socket s.
      then_try (bind_listen_socket options socket s) (λ socket s. listen_on_socket socket s))

  -- `Run` until the loop that accepts, `none`, or what it returns, with the server's socket.
  unfoldable pub run_web_server : WebServerOptions → System → Option ℕ × Tried
  unfolding start_listening socket_without_fd
  run_web_server options s =
      let started = start_listening options socket_without_fd s in
      (if started.error_value.success then none else some 1, started)

  -- The rest of `ConnectSocket`, when `socket` has brought a descriptor. `gai_strerror` is the text of an
  -- error of `getaddrinfo`, and `first_address` the address that the list it has made begins with.
  module _ (gai_strerror : ℕ → String) (first_address : ℕ → Option ℕ) where
    unfoldable pub connect_found : String → ℕ → Answer → Socket → System → Tried
    connect_found hostname port (fails rc) socket s = record {
      error_value = error (
          append "Failed to do hostname lookup for "
            (append hostname (append ": " (gai_strerror rc))));
      socket = socket;
      system = s;
    }
    connect_found hostname port (returned addr) socket s = elim (first_address addr) [
      | none ↦ record {
        error_value = error "Failed to do hostname lookup: no addressed returned";
        socket = socket;
        system = s;
      }
      | some ip ↦
          try_call "Failed to connect to host: "
            (connect_to (socket.fd) (record { ip = ip; port = port })) socket s
    ]

    unfoldable pub connect_socket : String → ℕ → Socket → System → Tried
    unfolding set_opened
    connect_socket hostname port socket s =
        then_try (set_opened (answer open_socket s) socket (after open_socket s)) (λ socket s.
          connect_found hostname port (answer (look_up hostname) s) socket
            (after (look_up hostname) s))
