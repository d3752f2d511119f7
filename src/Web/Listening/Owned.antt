-- ===== src/Web/Listening/Owned.antt =====
-- Whatever fails, the descriptors that are opened are those that the socket owns.
use Prim.Native.String.{String}
use angry_balls.Base.{
  ℕ, ◌+◌, ◌∷◌, Option, none, Bool-cases, Option-cases, inl, inr, ◌≡◌, refl, arith, if◌then◌else◌,
}
use angry_balls.System.{
  Call, open_socket, set_reuse_address, bind_to, listen_on, look_up, Answer, returned, fails,
  System, answer, after,
}
use angry_balls.System.Descriptors.{
  one_if, opened, opened_by, closes, closed, Same, Same-refl, Same-after,
}
use angry_balls.Web.Socket.{Socket, set_fd, socket_of}
use angry_balls.Web.Options.{WebServerOptions}
use angry_balls.Web.Listening.{
  ErrorValue, Tried, then_try, checked, try_call, set_opened, create_listen_socket,
  bind_listen_socket, listen_on_socket, start_listening, connect_found, connect_socket,
}

abbrev pub owned : ℕ → Socket → ℕ
owned d socket = if socket.has_fd then one_if d socket.fd else 0

-- From a socket and its system to those after a call, each descriptor was opened as often as it was closed,
-- and more often by as much as the socket now owns it more.
pub Owns : Socket → System → Tried → Type 0
Owns socket s t =
    (d : ℕ)
    → opened d t.system.log + closed d s.log + owned d socket
      ≡ opened d s.log + closed d t.system.log + owned d t.socket

then_try-Owns :
    (socket : Socket) (s : System) (t : Tried) (next : Socket → System → Tried)
    → Owns socket s t
    → ((held : Socket) (s' : System) → Owns held s' (next held s'))
    → Owns socket s (then_try t next)
unfolding Owns
then_try-Owns socket s t next h k d = elim (Bool-cases t.error_value.success) [
  | inl went ↦ rw (went) (omega (arith, h d, k t.socket t.system d))
  | inr failed ↦ rw (failed) (h d)
]

-- A call that neither opens nor closes leaves the socket alone.
Same-Owns :
    (socket : Socket) (s t : System) (a : ErrorValue)
    → Same s t
    → Owns socket s (record { error_value = a; socket = socket; system = t })
unfolding Owns
Same-Owns socket s t a same d = omega (arith, same.opened_same d, same.closed_same d)

Owns-trans :
    (socket : Socket) (s t : System) (u : Tried) → Same s t → Owns socket t u → Owns socket s u
unfolding Owns
Owns-trans socket s t u same h d = omega (arith, h d, same.opened_same d, same.closed_same d)

module _ (strerror : ℕ → String) where
  checked-Owns :
      (message : String) (a : Answer) (socket : Socket) (s t : System)
      → Same s t
      → Owns socket s (checked strerror message a socket t)
  checked-Owns message (returned n) socket s t same = Same-Owns socket s t _ same
  checked-Owns message (fails errno) socket s t same = Same-Owns socket s t _ same

  try_call-Owns :
      (message : String) (c : Call) (socket : Socket) (s : System)
      → ((a : Answer) → opened_by c a ≡ none)
      → ((d : ℕ) → closes d c ≡ 0)
      → Owns socket s (try_call strerror message c socket s)
  try_call-Owns message c socket s opens_none closes_none =
      checked-Owns message (answer c s) socket s (after c s)
        (Same-after c opens_none closes_none (Same-refl s))

  set_opened-Owns :
      (a : Answer) (socket : Socket) (s : System)
      → Owns socket s (set_opened strerror a socket (record s { log = (open_socket, a) ∷ s.log }))
  unfolding set_opened set_fd socket_of Owns
  set_opened-Owns (returned fd) socket s d = elim (Bool-cases socket.has_fd) [
    | inl has ↦ rw (has) (omega arith)
    | inr has_not ↦ rw (has_not) (omega arith)
  ]
  set_opened-Owns (fails errno) socket s d = omega arith

  bind_listen_socket-Owns :
      (options : WebServerOptions) (socket : Socket) (s : System)
      → Owns socket s (bind_listen_socket strerror options socket s)
  unfolding bind_listen_socket
  bind_listen_socket-Owns options socket s =
      then_try-Owns socket s _ _
        (try_call-Owns _ (set_reuse_address socket.fd) socket s (λ a. refl) (λ d. refl))
        (λ held s'.
          try_call-Owns "Failed to bind socket: "
            (bind_to held.fd (record { ip = 0; port = options.listen_port })) held s' (λ a. refl)
            (λ d. refl))

  listen_on_socket-Owns :
      (socket : Socket) (s : System) → Owns socket s (listen_on_socket strerror socket s)
  unfolding listen_on_socket
  listen_on_socket-Owns socket s =
      try_call-Owns _ (listen_on socket.fd 5) socket s (λ a. refl) (λ d. refl)

  -- Whatever the calls are answered, when `StartListening` returns, the descriptors that it opened and did
  -- not close are those that the socket of the server owns more than before.
  pub start_listening-Owns :
      (options : WebServerOptions) (socket : Socket) (s : System)
      → Owns socket s (start_listening strerror options socket s)
  unfolding start_listening create_listen_socket
  start_listening-Owns options socket s =
      then_try-Owns socket s _ _ (set_opened-Owns (answer open_socket s) socket s) (λ held s'.
        then_try-Owns held s' _ _ (bind_listen_socket-Owns options held s')
          (λ held s'. listen_on_socket-Owns held s'))

  module _ (gai_strerror : ℕ → String) (first_address : ℕ → Option ℕ) where
    connect_found-Owns :
        (hostname : String) (port : ℕ) (a : Answer) (socket : Socket) (s : System)
        → Owns socket s (connect_found strerror gai_strerror first_address hostname port a socket s)
    unfolding connect_found
    connect_found-Owns hostname port (fails rc) socket s = Same-Owns socket s s _ (Same-refl s)
    connect_found-Owns hostname port (returned addr) socket s =
        elim (Option-cases (first_address addr)) [
          | inl empty ↦ rw (connect_found, empty) (Same-Owns socket s s _ (Same-refl s))
          | inr (ip, found) ↦
              rw (connect_found, found) (try_call-Owns _ _ socket s (λ a. refl) (λ d. refl))
        ]

    -- The same of `ConnectSocket`.
    pub connect_socket-Owns :
        (hostname : String) (port : ℕ) (socket : Socket) (s : System)
        → Owns socket s (connect_socket strerror gai_strerror first_address hostname port socket s)
    unfolding connect_socket
    connect_socket-Owns hostname port socket s =
        then_try-Owns socket s _ _ (set_opened-Owns (answer open_socket s) socket s) (λ held s'.
          Owns-trans held s' _ _
            (Same-after (look_up hostname) (λ a. refl) (λ d. refl) (Same-refl s'))
            (connect_found-Owns hostname port (answer (look_up hostname) s') held _))
