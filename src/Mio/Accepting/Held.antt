-- ===== src/Mio/Accepting/Held.antt =====
-- The connections that are listed hold exactly the descriptors that are open.
use angry_balls.Base.{
  ℕ, zero, suc, ◌+◌, List, [], ◌∷◌, Option, none, some, Option-cases, Bool-cases, inl, inr, ◌⊎◌,
  ◌==◌, ◌≡◌, refl, ◌∙◌, arith, if◌then◌else◌,
}
use angry_balls.System.{
  System, failed_to_add_watched, Result, ok, raise, asserts, Answer, returned, fails, answer, after,
  unless_fails, pure, add_to_epoll,
}
use angry_balls.System.Descriptors.{
  opened, closed, last_opened, Leaves, Same, Same-refl, Same-after,
}
use angry_balls.Mio.Socket.{Socket, destroy}
use angry_balls.Mio.Socket.Opened.{in_fcntl, left_open, of_socket, destroy-Closes}
use angry_balls.Mio.ServerSocket.{Library, ServerSocket, accept_new_connection}
use angry_balls.Mio.ServerSocket.Opened.{of_accepted, accept_new_connection-Leaves}
use angry_balls.Mio.Table.{Table, lookup, erase}
use angry_balls.Mio.Events.{IoServer, add_connection, close_connection}
use angry_balls.Mio.Accepting.{
  Ended, drained, accepting, asserted, threw, Accepted, add_watched, accept_step, acceptor_read,
  close_watched, Operation, accepts, closes, operate,
}

-- What an exception leaves open that no connection holds.
abbrev pub leaked : ℕ → Ended → System → ℕ
leaked d (threw e) s = if in_fcntl e then last_opened d s.log else 0
leaked d drained s = 0
leaked d accepting s = 0
leaked d asserted s = 0

module _ {X : Type 0} where
  -- How often the listed connections hold a descriptor.
  abbrev pub held : ℕ → Table (Socket × X) → ℕ
  held d [] = 0
  held d ((i, (socket, x)) ∷ cs) = of_socket d socket + held d cs

  held-erase :
      (d i : ℕ) (cs : Table (Socket × X)) {connection : Socket × X}
      → lookup i cs ≡ some connection
      → held d cs ≡ of_socket d (connection.0) + held d (erase i cs)
  held-erase d i [] h = cc
  held-erase d i ((j, (socket, x)) ∷ cs) {connection} h = elim (Bool-cases (j == i)) [
    | inl e ↦ let is : connection ≡ (socket, x) = ground (arith, e, h) in rw (is, e) refl
    | inr e ↦
        let rest = held-erase d i cs {connection = connection} (ground (arith, e, h)) in
        rw (e, rest) (omega arith)
  ]

  -- From a server and its system to those after an operation, a descriptor was opened as often as it was
  -- closed, and more often by as much as more of the connections hold it.
  unfoldable pub Balanced : IoServer (Socket × X) → System → Accepted X → Type 0
  Balanced server s a =
      (d : ℕ)
      → opened d a.system.log + closed d s.log + held d server.connections
        ≡ opened d s.log
          + closed d a.system.log
          + held d a.server.connections
          + leaked d a.ended a.system

  close_watched-Balanced :
      (i : ℕ) (server server' : IoServer (Socket × X)) (s s' : System)
      → close_watched i server s ≡ some (server', s')
      → Balanced server s (record { ended = drained; server = server'; system = s' })
  unfolding close_watched close_connection Balanced
  close_watched-Balanced i server server' s s' h d =
      elim (Option-cases (lookup i server.connections)) [
        | inl erased ↦ ground (arith, erased, h)
        | inr (connection, at) ↦
            let closing : close_watched i server s
                ≡ some (close_connection i server, destroy (connection.0) s) =
              rw (close_watched, at) refl in
            let is_server : server' ≡ close_connection i server = cc in
            let is_system : s' ≡ destroy (connection.0) s = cc in
            let (opens, closes_it) = destroy-Closes (connection.0) s d in
            let holds = held-erase d i server.connections {connection = connection} at in
            rw (is_server, is_system) (omega (arith, opens, closes_it, holds))
      ]

  read-Balanced :
      (rest : IoServer (Socket × X) → System → Option (Accepted X)) (a : Accepted X)
      → ((server : IoServer (Socket × X)) (s : System)
          → rest server s ≡ some a
          → Balanced server s a)
      → (server : IoServer (Socket × X)) (s : System) (read : Accepted X) (e : Ended)
      → read.ended ≡ e
      → Balanced server s read
      → (elim e as (λ x. Option (Accepted X)) [
        | drained ↦ rest (read.server) (read.system)
        | accepting ↦ some read
        | asserted ↦ some read
        | threw e ↦ some read
      ])
        ≡ some a
      → Balanced server s a
  unfolding Balanced
  read-Balanced rest a tail server s read drained at before h d =
      let none_leaked : leaked d read.ended read.system ≡ 0 = rw (at) refl in
      let onward = tail read.server read.system h d in omega (arith, before d, none_leaked, onward)
  read-Balanced rest a tail server s read accepting at before h d =
      let is : a ≡ read = cc in rw (is) (before d)
  read-Balanced rest a tail server s read asserted at before h d =
      let is : a ≡ read = cc in rw (is) (before d)
  read-Balanced rest a tail server s read (threw e) at before h d =
      let is : a ≡ read = cc in rw (is) (before d)

  pub add_watched-answered :
      (epoll : ℕ) (connection : Socket × X) (server : IoServer (Socket × X)) (s : System)
      → let a = add_watched epoll connection server s in
        ((a.ended ≡ drained) ⊎ (a.ended ≡ threw failed_to_add_watched))
        × ((a.server ≡ add_connection connection server)
            × (a.system ≡ after (add_to_epoll epoll (connection.0).fd) s))
  unfolding add_watched
  add_watched-answered epoll connection server s =
      by_answer (answer (add_to_epoll epoll (connection.0).fd) s)
    where
      t : System
      t = after (add_to_epoll epoll (connection.0).fd) s

      by_answer :
          (a : Answer)
          → let watched : Result ℕ × System = unless_fails a failed_to_add_watched pure t in
            let ended : Ended = elim (watched.0) [
              | ok n ↦ drained
              | raise e ↦ threw e
              | asserts ↦ asserted
            ] in
            ((ended ≡ drained) ⊎ (ended ≡ threw failed_to_add_watched))
            × ((add_connection connection server ≡ add_connection connection server)
                × (watched.1 ≡ t))
      by_answer (returned n) = (inl refl, (refl, refl))
      by_answer (fails e) = (inr refl, (refl, refl))

  module _ (c : Library) (impl : Socket → X) (epoll : ℕ) (listening : ServerSocket) where
    added-Balanced :
        (rest : IoServer (Socket × X) → System → Accepted X)
        → ((server : IoServer (Socket × X)) (s : System) → Balanced server s (rest server s))
        → (connection : Socket × X) (server : IoServer (Socket × X)) (s t : System)
        → ((d : ℕ)
            → opened d t.log + closed d s.log
              ≡ opened d s.log + closed d t.log + of_socket d (connection.0))
        → (added : Accepted X) (e : Ended) → added.ended ≡ e
        → (e ≡ drained) ⊎ (e ≡ threw failed_to_add_watched)
        → added.server ≡ add_connection connection server
        → Same t added.system
        → Balanced server s (elim e [
          | drained ↦ rest (added.server) (added.system)
          | accepting ↦ added
          | asserted ↦ added
          | threw e ↦ added
        ])
    unfolding Balanced add_connection
    added-Balanced rest tail connection server s t h added drained at outcome lists same d =
        let onward = tail added.server added.system d in
        let holds : held d added.server.connections
            ≡ of_socket d (connection.0) + held d server.connections =
          rw (lists) refl in
        omega (arith, h d, onward, holds, same.opened_same d, same.closed_same d)
    added-Balanced rest tail connection server s t h added (threw e) at (inr thrown) lists same d =
        let is : added.ended ≡ threw failed_to_add_watched = at ∙ thrown in
        let none_leaked : leaked d added.ended added.system ≡ 0 = rw (is) refl in
        let holds : held d added.server.connections
            ≡ of_socket d (connection.0) + held d server.connections =
          rw (lists) refl in
        omega (arith, h d, none_leaked, holds, same.opened_same d, same.closed_same d)
    added-Balanced rest tail connection server s t h added (threw e) at (inl ends) lists same d = cc
    added-Balanced rest tail connection server s t h added accepting at (inl ends) lists same d = cc
    added-Balanced rest tail connection server s t h added accepting at (inr ends) lists same d = cc
    added-Balanced rest tail connection server s t h added asserted at (inl ends) lists same d = cc
    added-Balanced rest tail connection server s t h added asserted at (inr ends) lists same d = cc

    accept_step-Balanced :
        (rest : IoServer (Socket × X) → System → Accepted X)
        → ((server : IoServer (Socket × X)) (s : System) → Balanced server s (rest server s))
        → (got : Result (Option Socket) × System) (server : IoServer (Socket × X)) (s : System)
        → Leaves (left_open of_accepted got) s (got.1)
        → Balanced server s (accept_step c impl epoll listening rest got server)
    unfolding Balanced
    accept_step-Balanced rest tail (ok none, t) server s h d = omega (arith, h d)
    accept_step-Balanced rest tail (ok (some socket), t) server s h d =
        let connection : Socket × X = (socket, impl socket) in
        let (outcome, (lists, is)) = add_watched-answered epoll connection server t in
        let added = add_watched epoll connection server t in
        added-Balanced rest tail connection server s t h added added.ended refl outcome lists
          (rw (is)
            (Same-after (add_to_epoll epoll socket.fd) (λ a. refl) (λ d. refl) (Same-refl t)))
          d
    accept_step-Balanced rest tail (raise e, t) server s h d = omega (arith, h d)
    accept_step-Balanced rest tail (asserts, t) server s h d = omega (arith, h d)

    acceptor_read-Balanced :
        (rounds : ℕ) (server : IoServer (Socket × X)) (s : System)
        → Balanced server s (acceptor_read c impl epoll listening rounds server s)
    unfolding acceptor_read Balanced
    acceptor_read-Balanced zero server s d = omega arith
    acceptor_read-Balanced (suc rounds) server s d =
        accept_step-Balanced (acceptor_read c impl epoll listening rounds)
          (acceptor_read-Balanced rounds) (accept_new_connection c listening s) server s
          (accept_new_connection-Leaves c listening s) d

    -- However the event loop takes connections in and closes them, and whatever the system answers to each
    -- call, the descriptors that are open at the end are exactly those of the connections that are then
    -- listed, if at the start they were, each as often as it is held; but when it stops because
    -- `makeNonblocking` has thrown, the descriptor that was accepted last is open and of no connection.
    pub operate-Balanced :
        (ops : List Operation) (server : IoServer (Socket × X)) (s : System) (a : Accepted X)
        → operate c impl epoll listening ops server s ≡ some a
        → Balanced server s a
    unfolding operate Balanced
    operate-Balanced [] server s a h d =
        let is : a ≡ record { ended = drained; server = server; system = s } = cc in
        rw (is) (omega arith)
    operate-Balanced (accepts rounds ∷ ops) server s a h d =
        let read = acceptor_read c impl epoll listening rounds server s in
        read-Balanced (operate c impl epoll listening ops) a
          (λ server' s' rest. operate-Balanced ops server' s' a rest) server s read read.ended refl
          (acceptor_read-Balanced rounds server s) h d
    operate-Balanced (closes i ∷ ops) server s a h d =
        elim (Option-cases (close_watched i server s)) [
          | inl erased ↦ ground (arith, erased, h)
          | inr ((server', s'), at) ↦
              let before = close_watched-Balanced i server server' s s' at d in
              let rest : operate c impl epoll listening ops server' s' ≡ some a =
                ground (arith, at, h) in
              let onward = operate-Balanced ops server' s' a rest d in omega (arith, before, onward)
        ]
