-- ===== src/Web/Listening/Outcomes.antt =====
-- What `WebServer::StartListening` comes to, by which of its calls fails.
use Prim.Native.String.{String}
use angry_balls.Base.{ℕ, Bool-cases, inl, inr, ◌⊎◌, ◌≡◌, refl, arith}
use angry_balls.System.{
  open_socket, set_reuse_address, bind_to, listen_on, Address, Answer, returned, fails, System,
  answer, after,
}
use angry_balls.Web.Socket.{Socket, socket_of, set_fd, destroy}
use angry_balls.Web.Options.{WebServerOptions}
use angry_balls.Web.Listening.{
  Tried, then_try, ok, checked, error_from_errno, close_all, set_opened, create_listen_socket,
  bind_listen_socket, listen_on_socket, start_listening,
}
use angry_balls.Web.Listening.Owned.{Owns, start_listening-Owns}

-- What is returned when a call has an answer: the error if it fails, and else no error.
module _ (strerror : ℕ → String) where
  checked-cases :
      (message : String) (a : Answer) (socket : Socket) (s : System)
      → ((n : ℕ) × ((a ≡ returned n)
            × (checked strerror message a socket s
                ≡ record { error_value = ok; socket = socket; system = s })))
        ⊎ ((errno : ℕ) × ((a ≡ fails errno)
              × (checked strerror message a socket s ≡ record {
                error_value = error_from_errno strerror message errno;
                socket = socket;
                system = s;
              })))
  checked-cases message (returned n) socket s = inl (n, (refl, refl))
  checked-cases message (fails errno) socket s = inr (errno, (refl, refl))

  set_opened-cases :
      (a : Answer) (socket : Socket) (s : System)
      → ((fd : ℕ) × ((a ≡ returned fd)
            × (set_opened strerror a socket s ≡ record {
              error_value = ok;
              socket = socket_of fd;
              system = close_all (destroy socket) s;
            })))
        ⊎ ((errno : ℕ) × ((a ≡ fails errno)
              × (set_opened strerror a socket s ≡ record {
                error_value = error_from_errno strerror "Failed to open socket: " errno;
                socket = socket;
                system = s;
              })))
  unfolding set_opened set_fd destroy
  set_opened-cases (returned fd) socket s = inl (
    fd,
    (
      refl,
      elim (Bool-cases socket.has_fd) [
        | inl has ↦ ground (arith, has)
        | inr has_not ↦ ground (arith, has_not)
      ],
    ),
  )
  set_opened-cases (fails errno) socket s = inr (errno, (refl, refl))

  module _ (options : WebServerOptions) (socket : Socket) (s : System) where
    -- The system when the call of `socket` has brought `fd` and the socket has closed what it owned, then
    -- when the option is set, and then when the socket is bound.
    abbrev renewed : System
    renewed = close_all (destroy socket) (after open_socket s)

    abbrev any_address : Address
    any_address = record { ip = 0; port = options.listen_port }

    abbrev reusing : ℕ → System
    reusing fd = after (set_reuse_address fd) renewed

    abbrev bound : ℕ → System
    bound fd = after (bind_to fd any_address) (reusing fd)

    -- One constructor for each place where the method can return.
    pub data Ends : Tried → Type 0 where
      not_opened :
          {errno : ℕ}
          → answer open_socket s ≡ fails errno
          → Ends (record {
            error_value = error_from_errno strerror "Failed to open socket: " errno;
            socket = socket;
            system = after open_socket s;
          })
      not_set :
          {fd errno : ℕ}
          → answer open_socket s ≡ returned fd
          → answer (set_reuse_address fd) renewed ≡ fails errno
          → Ends (record {
            error_value =
                error_from_errno strerror "Failed to set option SO_REUSEADDR on socket: " errno;
            socket = socket_of fd;
            system = reusing fd;
          })
      not_bound :
          {fd n errno : ℕ}
          → answer open_socket s ≡ returned fd
          → answer (set_reuse_address fd) renewed ≡ returned n
          → answer (bind_to fd any_address) (reusing fd) ≡ fails errno
          → Ends (record {
            error_value = error_from_errno strerror "Failed to bind socket: " errno;
            socket = socket_of fd;
            system = bound fd;
          })
      not_listening :
          {fd n m errno : ℕ}
          → answer open_socket s ≡ returned fd
          → answer (set_reuse_address fd) renewed ≡ returned n
          → answer (bind_to fd any_address) (reusing fd) ≡ returned m
          → answer (listen_on fd 5) (bound fd) ≡ fails errno
          → Ends (record {
            error_value = error_from_errno strerror "Failed to listen on server socket: " errno;
            socket = socket_of fd;
            system = after (listen_on fd 5) (bound fd);
          })
      listening :
          {fd n m k : ℕ}
          → answer open_socket s ≡ returned fd
          → answer (set_reuse_address fd) renewed ≡ returned n
          → answer (bind_to fd any_address) (reusing fd) ≡ returned m
          → answer (listen_on fd 5) (bound fd) ≡ returned k
          → Ends (record {
            error_value = ok;
            socket = socket_of fd;
            system = after (listen_on fd 5) (bound fd);
          })

    opened-Ends :
        (fd : ℕ)
        → answer open_socket s ≡ returned fd
        → Ends (
            then_try
              (bind_listen_socket strerror options (socket_of fd) renewed)
              (λ held s'. listen_on_socket strerror held s'))
    unfolding bind_listen_socket listen_on_socket socket_of
    opened-Ends fd opens =
        elim (checked-cases "Failed to set option SO_REUSEADDR on socket: "
          (answer (set_reuse_address fd) renewed) (socket_of fd) (reusing fd)) [
            | inr (errno, (fails_set, eq)) ↦ rw (eq) (not_set opens fails_set)
            | inl (n, (sets, eq)) ↦
                rw (eq)
                  (elim (checked-cases "Failed to bind socket: "
                    (answer (bind_to fd any_address) (reusing fd)) (socket_of fd) (bound fd)) [
                      | inr (errno, (fails_bind, eq2)) ↦ rw (eq2) (not_bound opens sets fails_bind)
                      | inl (m, (binds, eq2)) ↦
                          rw (eq2)
                            (elim (checked-cases "Failed to listen on server socket: "
                              (answer (listen_on fd 5) (bound fd)) (socket_of fd)
                              (after (listen_on fd 5) (bound fd))) [
                                | inr (errno, (fails_listen, eq3)) ↦
                                    rw (eq3) (not_listening opens sets binds fails_listen)
                                | inl (k, (listens, eq3)) ↦
                                    rw (eq3) (listening opens sets binds listens)
                              ])
                    ])
          ]

    -- `StartListening` makes the calls socket, setsockopt, bind and listen in this order, up to the first
    -- that fails, and returns the error of that one, or no error if none fails. If socket fails, the
    -- server's socket is as before and nothing is closed; else the socket owns the new descriptor, even if
    -- a later call fails, and what it owned before is closed, before the later calls. In every case the
    -- descriptors that were opened and not closed are those that the socket owns more than before.
    pub start_listening-Ends :
        Ends (start_listening strerror options socket s)
        × Owns socket s (start_listening strerror options socket s)
    unfolding start_listening create_listen_socket
    start_listening-Ends = (
      elim (set_opened-cases (answer open_socket s) socket (after open_socket s)) [
        | inl (fd, (opens, eq)) ↦ rw (eq) (opened-Ends fd opens)
        | inr (errno, (fails_open, eq)) ↦ rw (eq) (not_opened fails_open)
      ],
      start_listening-Owns strerror options socket s,
    )
