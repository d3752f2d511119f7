-- ===== src/System.antt =====
-- The calls of the operating system on descriptors, as include/mio/ and src/web-ui-client/ make them. What
-- the system answers to a call may depend on all the calls before it; the calls and the answers are
-- logged, the last one first.
pub mod Descriptors
use Prim.Native.String.{String}
use angry_balls.Base.{ℕ, List, [], ◌∷◌, Option, none, some, Bool, if◌then◌else◌}

-- `sockaddr_in`: `sin_addr` and `sin_port`.
pub record Address : Type 0 where
  pub ip : ℕ
  pub port : ℕ

pub data Call : Type 0 where
  open_socket create_epoll : Call
  accept_on get_flags close_fd set_reuse_address : ℕ → Call
  set_flags listen_on add_to_epoll receive_from write_to : ℕ → ℕ → Call
  bind_to connect_to : ℕ → Address → Call
  look_up : String → Call

-- A value that is not negative, or -1 with `errno`.
pub data Answer : Type 0 where
  returned fails : ℕ → Answer

abbrev pub Log : Type 0
Log = List (Call × Answer)

pub record System : Type 0 where
  pub kernel : Log → Call → Answer
  pub log : Log

-- The exceptions, each for its text.
pub data Exception : Type 0 where
  failed_in_fcntl failed_to_create failed_to_set_options failed_to_bind failed_to_listen : Exception
  failed_to_accept failed_to_connect failed_to_get_host failed_to_get_ip : Exception
  failed_to_add_watched recv_failed write_failed : Exception

-- A value, an exception, or a failed assertion.
pub data Result (A : Type 0) : Type 0 where
  ok : A → Result A
  raise : Exception → Result A
  asserts : Result A

abbrev pub Action : Type 0 → Type 0
Action A = System → Result A × System

-- What a call is answered, and the system after it.
abbrev pub answer : Call → System → Answer
answer c s = s.kernel s.log c

abbrev pub after : Call → System → System
after c s = record s { log = (c, answer c s) ∷ s.log }

abbrev pub call : Call → Action Answer
call c s = (ok (answer c s), after c s)

module _ {A : Type 0} where
  abbrev pub pure : A → Action A
  pure a s = (ok a, s)

  abbrev pub throw : Exception → Action A
  throw e s = (raise e, s)

  -- Whether a call succeeds.
  abbrev pub unless_fails : Answer → Exception → (ℕ → Action A) → Action A
  unless_fails (returned n) e f s = f n s
  unless_fails (fails errno) e f s = (raise e, s)

  -- A body, and what the unwinding of the stack does after an exception.
  abbrev pub on_unwinding : (System → System) → Result A × System → Result A × System
  on_unwinding destructor (ok a, s) = (ok a, s)
  on_unwinding destructor (raise e, s) = (raise e, destructor s)
  on_unwinding destructor (asserts, s) = (asserts, s)

module _ {A B : Type 0} where
  abbrev pub and_then : Result A × System → (A → Action B) → Result B × System
  and_then (ok a, s) f = f a s
  and_then (raise e, s) f = (raise e, s)
  and_then (asserts, s) f = (asserts, s)

  infixl 5 ◌>>=◌ ◌>>◌
  abbrev pub ◌>>=◌ : Action A → (A → Action B) → Action B
  ◌>>=◌ m f s = and_then (m s) f

  abbrev pub ◌>>◌ : Action A → Action B → Action B
  m >> n = m >>= λ _. n

-- A call whose failure is an exception.
abbrev pub call_or : Exception → Call → Action ℕ
call_or e c s = unless_fails (answer c s) e pure (after c s)
