-- ===== src/Mio/Socket/Opened.antt =====
-- The constructors of the sockets, and the descriptors that they leave open.
use angry_balls.Base.{
  ℕ, ◌+◌, ◌∷◌, Bool, true, false, Bool-cases, inl, inr, ◌⊎◌, ◌≡◌, refl, arith, if◌then◌else◌,
}
use angry_balls.System.{
  System, Answer, returned, fails, Exception, failed_in_fcntl, Result, ok, raise, asserts, answer,
  after, get_flags, set_flags, and_then, unless_fails, pure, call_or, open_socket, failed_to_create,
}
use angry_balls.System.Descriptors.{
  one_if, opened, closed, last_opened, Leaves, Same, Same-refl, Same-after,
}
use angry_balls.Mio.Socket.{Socket, destroy, new_socket, make_nonblocking, socket_of}

-- What is left open: what the value holds or, when an exception leaves the constructor that owns it, the
-- descriptor opened last.
abbrev pub in_fcntl : Exception → Bool
in_fcntl failed_in_fcntl = true
in_fcntl e = false

abbrev pub left_open : {A : Type 0} → (ℕ → A → ℕ) → Result A × System → ℕ → ℕ
left_open held (ok a, s) d = held d a
left_open held (raise e, s) d = if in_fcntl e then last_opened d s.log else 0
left_open held (asserts, s) d = 0

-- A socket holds the descriptor that it owns.
abbrev pub of_socket : ℕ → Socket → ℕ
of_socket d socket = if socket.have_resources then one_if d socket.fd else 0

-- What the constructor of a socket gives for the descriptor `fd`.
pub Constructs : ℕ → Result Socket × System → System → Type 0
Constructs fd made s =
    ((made.0 ≡ ok (record { fd = fd; have_resources = true })) ⊎ (made.0 ≡ raise failed_in_fcntl))
    × Same s (made.1)

module _ (with_nonblock : ℕ → ℕ) (fd : ℕ) (s : System) where
  own : Socket
  own = record { fd = fd; have_resources = true }

  set_flags-Constructs :
      (a : Answer) (s' : System)
      → Same s s'
      → Constructs fd (and_then (unless_fails a failed_in_fcntl pure s') (λ n. pure own)) s
  unfolding Constructs own
  set_flags-Constructs (returned n) s' same = (inl refl, same)
  set_flags-Constructs (fails e) s' same = (inr refl, same)

  get_flags-Constructs :
      (a : Answer) (s' : System)
      → Same s s'
      → ((flags : ℕ) → Same s (after (set_flags fd (with_nonblock flags)) s'))
      → Constructs fd
          (and_then
            (and_then
              (unless_fails a failed_in_fcntl pure s')
              (λ flags. call_or failed_in_fcntl (set_flags fd (with_nonblock flags))))
            (λ n. pure own))
          s
  unfolding Constructs
  get_flags-Constructs (returned flags) s' same set =
      set_flags-Constructs (answer (set_flags fd (with_nonblock flags)) s')
        (after (set_flags fd (with_nonblock flags)) s') (set flags)
  get_flags-Constructs (fails e) s' same set = (inr refl, same)

  pub socket_of-Constructs :
      (non_blocking : Bool) → Constructs fd (socket_of with_nonblock fd non_blocking s) s
  unfolding socket_of make_nonblocking Constructs own
  socket_of-Constructs false = (inl refl, Same-refl s)
  socket_of-Constructs true =
      get_flags-Constructs (answer (get_flags fd) s) (after (get_flags fd) s) get_same
        (λ flags. Same-after (set_flags fd (with_nonblock flags)) (λ a. refl) (λ d. refl) get_same)
    where
      get_same : Same s (after (get_flags fd) s)
      get_same = Same-after (get_flags fd) (λ a. refl) (λ d. refl) (Same-refl s)

-- The constructor after the call that has opened the descriptor.
pub Constructs-Leaves :
    (s s1 : System) (fd : ℕ) (made : Result Socket × System)
    → ((d : ℕ) → opened d s1.log ≡ one_if d fd + opened d s.log)
    → ((d : ℕ) → closed d s1.log ≡ closed d s.log)
    → ((d : ℕ) → last_opened d s1.log ≡ one_if d fd)
    → Constructs fd made s1
    → Leaves (left_open of_socket made) s (made.1)
unfolding Constructs
Constructs-Leaves s s1 fd (ok socket, s') o cl l (inl e, same) d =
    let is : socket ≡ record { fd = fd; have_resources = true } = cc in
    rw (is) (omega (arith, same.opened_same d, same.closed_same d, o d, cl d))
Constructs-Leaves s s1 fd (raise e, s') o cl l (inl h, same) d = cc
Constructs-Leaves s s1 fd (asserts, s') o cl l (inl h, same) d = cc
Constructs-Leaves s s1 fd (ok socket, s') o cl l (inr h, same) d = cc
Constructs-Leaves s s1 fd (asserts, s') o cl l (inr h, same) d = cc
Constructs-Leaves s s1 fd (raise e, s') o cl l (inr h, same) d =
    let is : e ≡ failed_in_fcntl = cc in
    rw (is)
      (omega (arith, same.opened_same d, same.closed_same d, same.last_same d, o d, cl d, l d))

module _ (with_nonblock : ℕ → ℕ) (non_blocking : Bool) (s : System) where
  opened_socket :
      (a : Answer)
      → let s1 : System = record s { log = (open_socket, a) ∷ s.log } in
        let made : Result Socket × System =
          and_then
            (unless_fails a failed_to_create pure s1)
            (λ fd. socket_of with_nonblock fd non_blocking) in
        Leaves (left_open of_socket made) s (made.1)
  opened_socket (fails e) d = omega arith
  opened_socket (returned fd) d =
      let s1 : System = record s { log = (open_socket, returned fd) ∷ s.log } in
      Constructs-Leaves s s1 fd (socket_of with_nonblock fd non_blocking s1) (λ d. refl)
        (λ d. omega arith) (λ d. refl) (socket_of-Constructs with_nonblock fd s1 non_blocking) d

  pub new_socket-Leaves :
      let made : Result Socket × System = new_socket with_nonblock non_blocking s in
      Leaves (left_open of_socket made) s (made.1)
  unfolding new_socket
  new_socket-Leaves d = opened_socket (answer open_socket s) d

pub destroy-Closes :
    (socket : Socket) (s : System) (d : ℕ)
    → (opened d (destroy socket s).log ≡ opened d s.log)
      × (closed d (destroy socket s).log ≡ closed d s.log + of_socket d socket)
unfolding destroy
destroy-Closes socket s d = elim (Bool-cases socket.have_resources) [
  | inl owns ↦ ground (arith, owns)
  | inr left ↦ ground (arith, left)
]

pub last_opened-destroy :
    (socket : Socket) (s : System) (d : ℕ)
    → last_opened d (destroy socket s).log ≡ last_opened d s.log
unfolding destroy
last_opened-destroy socket s d = elim (Bool-cases socket.have_resources) [
  | inl owns ↦ rw (owns) refl
  | inr left ↦ rw (left) refl
]
