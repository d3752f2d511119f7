-- ===== src/Server/Game/Descriptors.antt =====
-- The descriptors that the server of the game holds.
use angry_balls.Base.{
  ℕ, ◌+◌, ◌^◌, ◌<◌, List, [], ◌∷◌, true, some, inl, inr, ◌⊎◌, ◌≡◌, ◌≢◌, refl, sym, ap, ◌∙◌, subst,
  arith,
}
use angry_balls.Base.Int.{ℤ}
use angry_balls.System.{
  create_epoll, add_to_epoll, Answer, returned, fails, System, Result, ok, raise, asserts, answer,
  after, failed_to_add_watched,
}
use angry_balls.System.Descriptors.{opened, closed, Leaves, Same, Same-refl, Same-after}
use angry_balls.Mio.Socket.{Socket, destroy}
use angry_balls.Mio.Socket.Opened.{left_open, of_socket, destroy-Closes, last_opened-destroy}
use angry_balls.Mio.ServerSocket.{Library, ServerSocket, server_socket}
use angry_balls.Mio.ServerSocket.Opened.{server_socket-Leaves}
use angry_balls.Mio.Events.{io_server, add_connection}
use angry_balls.Mio.Accepting.{
  Ended, drained, accepting, asserted, threw, Accepted, Operation, add_watched,
}
use angry_balls.Mio.Accepting.Held.{held, leaked, Balanced, add_watched-answered, operate-Balanced}
use angry_balls.Server.Game.{
  Role, server_connection, GameIoServer, epoll_of, watch_server, add_server_connection,
  game_io_server, create_connection_impl, run_io,
}

-- What the server of the game holds: the descriptor of epoll, and those of its connections, of which the
-- listening one is one.
abbrev pub of_game_io_server : ℕ → GameIoServer → ℕ
of_game_io_server d g = of_socket d g.epoll_socket + held d g.server.connections

watch_server-Leaves :
    (epoll_socket : Socket) (listening : ServerSocket) (s t : System) (d : ℕ)
    → opened d t.log + closed d s.log
      ≡ opened d s.log + closed d t.log + (of_socket d epoll_socket + of_socket d listening.socket)
    → (added : Accepted Role) (e : Ended) → added.ended ≡ e
    → (e ≡ drained) ⊎ (e ≡ threw failed_to_add_watched)
    → added.server ≡ add_connection (listening.socket, server_connection) io_server
    → Same t added.system
    → let made : Result GameIoServer × System = watch_server epoll_socket listening added in
      opened d (made.1).log + closed d s.log
      ≡ opened d s.log + closed d (made.1).log + left_open of_game_io_server made d
unfolding add_connection
watch_server-Leaves epoll_socket listening s t d h added drained at outcome lists same =
    let holds : held d added.server.connections ≡ of_socket d listening.socket + 0 =
      rw (lists) refl in
    rw (watch_server, at) (omega (arith, h, holds, same.opened_same d, same.closed_same d))
watch_server-Leaves epoll_socket listening s t d h added (threw e) at (inr thrown) lists same =
    let is : added.ended ≡ threw failed_to_add_watched = at ∙ thrown in
    let (opens, closes_it) = destroy-Closes listening.socket added.system d in
    let (opens_no, closes_epoll) =
      destroy-Closes epoll_socket (destroy listening.socket added.system) d in
    rw (watch_server, is)
      (omega (
        arith,
        h,
        opens,
        closes_it,
        opens_no,
        closes_epoll,
        same.opened_same d,
        same.closed_same d,
      ))
watch_server-Leaves epoll_socket listening s t d h added (threw e) at (inl ends) lists same = cc
watch_server-Leaves epoll_socket listening s t d h added accepting at (inl ends) lists same = cc
watch_server-Leaves epoll_socket listening s t d h added accepting at (inr ends) lists same = cc
watch_server-Leaves epoll_socket listening s t d h added asserted at (inl ends) lists same = cc
watch_server-Leaves epoll_socket listening s t d h added asserted at (inr ends) lists same = cc

module _ (c : Library) where
  add_server_connection-Leaves :
      (epoll_socket : Socket) (s t : System)
      → ((d : ℕ)
          → d < 2 ^ 31
          → opened d t.log + closed d s.log
            ≡ opened d s.log + closed d t.log + of_socket d epoll_socket)
      → (made : Result ServerSocket × System)
      → Leaves (left_open (λ d listening. of_socket d listening.socket) made) t (made.1)
      → let all : Result GameIoServer × System = add_server_connection c epoll_socket made in
        all.0 ≢ asserts
        → (d : ℕ) → d < 2 ^ 31
        → opened d (all.1).log + closed d s.log
          ≡ opened d s.log + closed d (all.1).log + left_open of_game_io_server all d
  unfolding add_server_connection
  add_server_connection-Leaves epoll_socket s t h (ok listening, u) leaves goes d low =
      let connection : Socket × Role = (listening.socket, server_connection) in
      let added = add_watched epoll_socket.fd connection io_server u in
      let (outcome, (lists, is)) = add_watched-answered epoll_socket.fd connection io_server u in
      let start = h d low in
      let made = leaves d in
      watch_server-Leaves epoll_socket listening s u d (omega (arith, start, made)) added
        added.ended refl outcome lists
        (rw (is) (
          Same-after (add_to_epoll epoll_socket.fd listening.socket.fd) (λ a. refl) (λ d. refl)
            (Same-refl u)))
  add_server_connection-Leaves epoll_socket s t h (raise e, u) leaves goes d low =
      let (opens, closes_it) = destroy-Closes epoll_socket u d in
      let lasts = last_opened-destroy epoll_socket u d in
      let before = leaves d in
      let start = h d low in rw (lasts) (omega (arith, start, before, opens, closes_it))
  add_server_connection-Leaves epoll_socket s t h (asserts, u) leaves goes d low =
      absurd (goes refl)

  epoll-opened :
      (s : System) (a : Answer) (d : ℕ)
      → d < 2 ^ 31
      → let t : System = record s { log = (create_epoll, a) ∷ s.log } in
        opened d t.log + closed d s.log ≡ opened d s.log + closed d t.log + of_socket d (epoll_of a)
  epoll-opened s (returned fd) d low = omega arith
  epoll-opened s (fails errno) d low = ground arith

  -- Whatever the calls are answered, the constructor of `GameIoServer` leaves open the descriptor of epoll and
  -- that of the listening socket; if it throws, none, or if `makeNonblocking` has thrown, the socket.
  game_io_server-Leaves :
      (port : ℤ) (s : System) (d : ℕ)
      → d < 2 ^ 31
      → let made : Result GameIoServer × System = game_io_server c port s in
        made.0 ≢ asserts
        → opened d (made.1).log + closed d s.log
          ≡ opened d s.log + closed d (made.1).log + left_open of_game_io_server made d
  unfolding game_io_server
  game_io_server-Leaves port s d low goes =
      let t = after create_epoll s in
      add_server_connection-Leaves (epoll_of (answer create_epoll s)) s t
        (λ d low. epoll-opened s (answer create_epoll s) d low)
        (server_socket c "127.0.0.1" port true t) (server_socket-Leaves c "127.0.0.1" port true t)
        goes d low

  -- From a system where nothing was opened or closed, the server of the game is made and then takes
  -- connections in and closes them: whatever the calls are answered, the descriptors below 2 ^ 31 that are
  -- open are exactly that of epoll and those of the connections that are then listed, each as often as it
  -- is held; but when `makeNonblocking` has thrown, the descriptor that was accepted last is open besides.
  pub run_io-holds :
      (port : ℤ) (ops : List Operation) (s : System) (g : GameIoServer) (t : System)
      (a : Accepted Role)
      → s.log ≡ []
      → game_io_server c port s ≡ (ok g, t)
      → run_io c ops g t ≡ some a
      → (d : ℕ) → d < 2 ^ 31
      → opened d a.system.log
        ≡ closed d a.system.log
          + of_socket d g.epoll_socket
          + held d a.server.connections
          + leaked d a.ended a.system
  unfolding run_io Balanced
  run_io-holds port ops s g t a fresh made ran d low =
      let goes : (game_io_server c port s).0 ≢ asserts =
        λ e. let off : ok g ≡ asserts = sym (ap (λ m. m.0) made) ∙ e in cc in
      let start = game_io_server-Leaves port s d low goes in
      let started =
        subst
          (λ m.
            opened d (m.1).log + closed d s.log
            ≡ opened d s.log + closed d (m.1).log + left_open of_game_io_server m d)
          made start in
      let after_run =
        operate-Balanced c create_connection_impl g.epoll_socket.fd g.listening ops g.server t a ran
          d in
      let none_opened : opened d s.log ≡ 0 = rw (fresh) refl in
      let none_closed : closed d s.log ≡ 0 = rw (fresh) refl in
      omega (arith, started, after_run, none_opened, none_closed)
