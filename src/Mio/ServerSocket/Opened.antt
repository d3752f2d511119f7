-- ===== src/Mio/ServerSocket/Opened.antt =====
-- The descriptors that the constructors of server_socket.hpp and client_socket.hpp and the accepting of
-- connections leave open.
use Prim.Native.String.{String}
use angry_balls.Base.{
  ℕ, ◌+◌, ◌∷◌, Bool, true, false, ◌&&◌, ◌||◌, Option, none, some, Bool-cases, inl, inr, ◌⊎◌, ◌==◌,
  ◌≡◌, refl, arith,
}
use angry_balls.Base.Int.{ℤ}
use angry_balls.System.{
  Call, System, Answer, returned, fails, Exception, failed_to_set_options, failed_to_bind,
  failed_to_listen, Result, ok, raise, asserts, answer, and_then, unless_fails, pure, call_or,
  on_unwinding, ◌>>=◌, set_reuse_address, bind_to, listen_on, accept_on, Action,
}
use angry_balls.System.Descriptors.{
  opened, opened_by, closes, closed, Leaves, Same, Same-refl, Same-after,
}
use angry_balls.Mio.Socket.{Socket, new_socket, socket_of, destroy}
use angry_balls.Mio.Socket.Opened.{
  in_fcntl, left_open, of_socket, destroy-Closes, socket_of-Constructs, Constructs-Leaves,
  new_socket-Leaves,
}
use angry_balls.Mio.ServerSocket.{
  Library, ServerSocket, get_address_by_ip, set_reuse_address_of, bind_to_address, listen_to,
  set_up, server_socket, by_accepted, accept_new_connection,
}

-- It throws nothing of `makeNonblocking`, and opens and closes nothing.
pub Quiet : {A : Type 0} → Result A × System → System → Type 0
Quiet {A} made s =
    (((a : A) × (made.0 ≡ ok a)) ⊎ ((e : Exception) × (made.0 ≡ raise e) × (in_fcntl e ≡ false)))
    × Same s (made.1)

call_or-Quiet :
    (e : Exception) (c : Call) (s s' : System)
    → in_fcntl e ≡ false
    → ((a : Answer) → opened_by c a ≡ none)
    → ((d : ℕ) → closes d c ≡ 0)
    → Same s s'
    → Quiet (call_or e c s') s
unfolding Quiet
call_or-Quiet e c s s' other opens_none closes_none same =
    by_answer (answer c s') (Same-after c opens_none closes_none same)
  where
    by_answer : (a : Answer) {t : System} → Same s t → Quiet (unless_fails a e pure t) s
    by_answer (returned n) kept = (inl (n, refl), kept)
    by_answer (fails errno) kept = (inr (e, refl, other), kept)

and_then-Quiet :
    {A B : Type 0} (m : Result A × System) (f : A → Action B) (s : System)
    → Quiet m s
    → ((a : A) (t : System) → Same s t → Quiet (f a t) s)
    → Quiet (and_then m f) s
unfolding Quiet
and_then-Quiet (ok a, t) f s (inl h, same) rest = rest a t same
and_then-Quiet (raise e, t) f s (inr (e', h, other), same) rest =
    let is : e ≡ e' = cc in (inr (e, refl, rw (is) other), same)
and_then-Quiet (raise e, t) f s (inl h, same) rest = cc
and_then-Quiet (asserts, t) f s (inl h, same) rest = cc
and_then-Quiet (asserts, t) f s (inr h, same) rest = cc
and_then-Quiet (ok a, t) f s (inr h, same) rest = cc

-- The constructor of a socket, and then the body of the constructor of a class derived from it, whose
-- object is `whole`.
module _ {A : Type 0} (whole : Socket → A) (held : ℕ → A → ℕ)
    (of_whole : (d : ℕ) (socket : Socket) → held d (whole socket) ≡ of_socket d socket) where
  unwound-Leaves :
      (socket : Socket) (t : System) (b : Result ℕ × System)
      → Quiet b t
      → let u : Result A × System =
          and_then (on_unwinding (destroy socket) b) (λ n. pure (whole socket)) in
        (d : ℕ)
        → opened d (u.1).log + closed d t.log + of_socket d socket
          ≡ opened d t.log + closed d (u.1).log + left_open held u d
  unfolding Quiet
  unwound-Leaves socket t (ok n, t') (q, same) d =
      omega (arith, same.opened_same d, same.closed_same d, of_whole d socket)
  unwound-Leaves socket t (asserts, t') (inl h, same) d = cc
  unwound-Leaves socket t (asserts, t') (inr h, same) d = cc
  unwound-Leaves socket t (raise e, t') (inl h, same) d = cc
  unwound-Leaves socket t (raise e, t') (inr (e', h, other), same) d =
      let is : e ≡ e' = cc in
      let (opens, closes_it) = destroy-Closes socket t' d in
      let quiet : in_fcntl e ≡ false = rw (is) other in
      ground (arith, same.opened_same d, same.closed_same d, opens, closes_it, quiet)

  derived-Leaves :
      (s : System) (made : Result Socket × System) (body : Socket → Action ℕ)
      → Leaves (left_open of_socket made) s (made.1)
      → ((socket : Socket) (t : System) → Quiet (body socket t) t)
      → let r : Result A × System = and_then made (λ socket.
        (λ t. on_unwinding (destroy socket) (body socket t)) >>= λ n. pure (whole socket)) in
        Leaves (left_open held r) s (r.1)
  derived-Leaves s (ok socket, t) body base quiet d =
      let unwound = unwound-Leaves socket t (body socket t) (quiet socket t) d in
      omega (arith, base d, unwound)
  derived-Leaves s (raise e, t) body base quiet d = base d
  derived-Leaves s (asserts, t) body base quiet d = base d

-- What a call that may bring a socket leaves open.
abbrev pub of_accepted : ℕ → Option Socket → ℕ
of_accepted d none = 0
of_accepted d (some socket) = of_socket d socket

module _ (c : Library) where
  set_up-Quiet : (ip : String) (port : ℤ) (fd : ℕ) (s : System) → Quiet (set_up c ip port fd s) s
  unfolding set_up set_reuse_address_of bind_to_address listen_to Quiet
  set_up-Quiet ip port fd s =
      and_then-Quiet _ _ s
        (and_then-Quiet _ _ s
          (call_or-Quiet failed_to_set_options (set_reuse_address fd) s s refl (λ a. refl)
            (λ d. refl) (Same-refl s))
          (λ n t same. (inl (fd, refl), same)))
        (λ n t same.
          and_then-Quiet _ _ s
            (call_or-Quiet failed_to_bind (bind_to fd (get_address_by_ip c ip port)) s t refl
              (λ a. refl) (λ d. refl) same)
            (λ m u same.
              call_or-Quiet failed_to_listen (listen_on fd 4096) s u refl (λ a. refl) (λ d. refl)
                same))

  -- Whatever the calls are answered, the constructor leaves open no descriptor but that of the socket that
  -- it makes; if it throws in `makeNonblocking`, the descriptor that it opened.
  pub server_socket-Leaves :
      (ip : String) (port : ℤ) (non_blocking : Bool) (s : System)
      → let made : Result ServerSocket × System = server_socket c ip port non_blocking s in
        Leaves (left_open (λ d listening. of_socket d listening.socket) made) s (made.1)
  unfolding server_socket
  server_socket-Leaves ip port non_blocking s d =
      derived-Leaves (λ socket. record { socket = socket; non_blocking = non_blocking })
        (λ d listening. of_socket d listening.socket) (λ d socket. refl) s
        (new_socket c.with_nonblock true s) (λ socket. set_up c ip port socket.fd)
        (new_socket-Leaves c.with_nonblock true s) (λ socket t. set_up-Quiet ip port socket.fd t) d

  wrapped-Leaves :
      (s : System) (made : Result Socket × System)
      → Leaves (left_open of_socket made) s (made.1)
      → let got : Result (Option Socket) × System = and_then made (λ socket. pure (some socket)) in
        Leaves (left_open of_accepted got) s (got.1)
  wrapped-Leaves s (ok socket, t) h d = h d
  wrapped-Leaves s (raise e, t) h d = h d
  wrapped-Leaves s (asserts, t) h d = h d

  by_accepted-Leaves :
      (listening_fd : ℕ) (non_blocking : Bool) (s : System) (a : Answer)
      → let got : Result (Option Socket) × System =
          by_accepted c non_blocking a (record s { log = (accept_on listening_fd, a) ∷ s.log }) in
        Leaves (left_open of_accepted got) s (got.1)
  unfolding by_accepted
  by_accepted-Leaves listening_fd non_blocking s (fails errno) d =
      elim (Bool-cases (non_blocking && (errno == c.eagain || errno == c.ewouldblock))) [
        | inl waits ↦ rw (waits) (omega arith)
        | inr broken ↦ rw (broken) (omega arith)
      ]
  by_accepted-Leaves listening_fd non_blocking s (returned fd) d =
      let s1 : System = record s { log = (accept_on listening_fd, returned fd) ∷ s.log } in
      wrapped-Leaves s (socket_of c.with_nonblock fd non_blocking s1)
        (Constructs-Leaves s s1 fd (socket_of c.with_nonblock fd non_blocking s1) (λ d. refl)
          (λ d. omega arith) (λ d. refl) (socket_of-Constructs c.with_nonblock fd s1 non_blocking))
        d

  -- Whatever the calls are answered, `acceptNewConnection` leaves open no descriptor but that of the socket
  -- that it brings; if it throws in `makeNonblocking`, the descriptor that was accepted.
  pub accept_new_connection-Leaves :
      (listening : ServerSocket) (s : System)
      → let got : Result (Option Socket) × System = accept_new_connection c listening s in
        Leaves (left_open of_accepted got) s (got.1)
  unfolding accept_new_connection
  accept_new_connection-Leaves listening s =
      by_accepted-Leaves listening.socket.fd listening.non_blocking s
        (answer (accept_on listening.socket.fd) s)
