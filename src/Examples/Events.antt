-- ===== src/Examples/Events.antt =====
-- A batch of two events: one connection has read its end and accepted another, the next one writes. And
-- a socket that is set twice, closed, set again and destroyed.
use angry_balls.Base.{ℕ, suc, List, [], ◌∷◌, All, true, false, some, ◌==◌, ◌≡◌, refl, subst}
use angry_balls.Mio.Events.{Event, Handlers, IoServer, handle_events}
use angry_balls.Mio.Events.Batch.{IsFresh, Ends, handle_events-Ends}
use angry_balls.Web.Socket.{socket_without_fd}
use angry_balls.Web.Socket.Ownership.{Call, sets, closes, given, given_up, given_up-given}

-- A connection is a number; 9 is to be closed.
abbrev numbers : Handlers ℕ
numbers = record {
  on_input = λ c. some (9, 3 ∷ []);
  on_output = λ c. some (suc c);
  need_close = λ c. c == 9;
}

numbers-IsFresh : IsFresh numbers
numbers-IsFresh c c' new h = fresh new cc
  where
    fresh : (new : List ℕ) → (3 ∷ [] ≡ new) → All (λ b. (b == 9) ≡ false) new
    fresh new e = subst (λ l. All (λ b. (b == 9) ≡ false) l) e (refl, tt)

abbrev two_connections : IoServer ℕ
two_connections = record { connections = (1, 2) ∷ (0, 1) ∷ []; next_iterator = 2; on_close = [] }

abbrev two_events : List Event
two_events =
    record { connection = 0; error = false; input = true; output = true; closed = false }
    ∷ record { connection = 1; error = false; input = false; output = true; closed = false }
    ∷ []

handle_events-Ends_example : Ends numbers (handle_events numbers two_events two_connections)
handle_events-Ends_example =
    handle_events-Ends numbers numbers-IsFresh two_events two_connections ((refl, tt), (tt, tt))
      (refl, (refl, tt)) (refl, (refl, tt))

abbrev calls : List Call
calls = sets 5 ∷ sets 6 ∷ closes ∷ sets 7 ∷ []

given_up-given_example : 5 ∷ 6 ∷ 7 ∷ [] ≡ given calls
unfolding given_up socket_without_fd
given_up-given_example = given_up-given calls (5 ∷ 6 ∷ 7 ∷ []) refl
