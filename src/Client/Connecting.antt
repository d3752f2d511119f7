-- ===== src/Client/Connecting.antt =====
-- The socket of `ClientIO` in src/client/gamer.cpp, and the loop that connects it.
use angry_balls.Base.{
  ℕ, zero, suc, ◌+◌, ◌*◌, ◌%◌, ◌^◌, List, [], ◌∷◌, Bool, true, false, Bool-cases, inl, inr, ◌≡◌,
  refl, if◌then◌else◌,
}
use angry_balls.Client.Gamer.{connects}
use angry_balls.System.{
  Call, open_socket, close_fd, connect_to, Answer, returned, fails, System, failed_to_create,
  Action, answer, after, call_or,
}
use angry_balls.System.Descriptors.{Same, Same-refl, Same-after, Same-trans}

-- The constructor and the destructor. A descriptor that was opened is not negative.
unfoldable pub client_io : Action ℕ
client_io = call_or failed_to_create open_socket

unfoldable pub destroy_client_io : ℕ → System → System
destroy_client_io sockfd s = after (close_fd sockfd) s

-- `connect` to the port on INADDR_LOOPBACK.
abbrev pub connecting : ℕ → ℕ → Call
connecting port sockfd = connect_to sockfd (record { ip = 127 * 2 ^ 24 + 1; port = port % 2 ^ 16 })

abbrev pub is_returned : Answer → Bool
is_returned (returned n) = true
is_returned (fails errno) = false

-- `Connection`.
unfoldable pub connection : ℕ → ℕ → System → Bool × System
connection port sockfd s = let c = connecting port sockfd in (is_returned (answer c s), after c s)

-- `while (!network_.Connection(port_))`, for so many rounds.
unfoldable pub connection_loop : ℕ → ℕ → ℕ → System → Bool × System
unfolding connection
connection_loop zero port sockfd s = (false, s)
connection_loop (suc rounds) port sockfd s =
    let (success, s') = connection port sockfd s in
    let later = connection_loop rounds port sockfd s' in if success then (true, s') else later

-- What as many calls of `Connection` return.
unfoldable pub attempts : ℕ → ℕ → ℕ → System → List Bool
unfolding connection
attempts zero port sockfd s = []
attempts (suc rounds) port sockfd s =
    let (success, s') = connection port sockfd s in success ∷ attempts rounds port sockfd s'

-- The loop ends with success just when one of the attempts succeeds, and it opens and closes nothing.
pub connection_loop-connects :
    (rounds port sockfd : ℕ) (s : System)
    → ((connection_loop rounds port sockfd s).0 ≡ connects (attempts rounds port sockfd s))
      × Same s (connection_loop rounds port sockfd s).1
unfolding connection_loop connection attempts connects
connection_loop-connects zero port sockfd s = (refl, Same-refl s)
connection_loop-connects (suc rounds) port sockfd s =
    let c = connecting port sockfd in
    let called : Same s (after c s) = Same-after c (λ a. refl) (λ d. refl) (Same-refl s) in
    let (later, same) = connection_loop-connects rounds port sockfd (after c s) in
    elim (Bool-cases (is_returned (answer c s))) [
      | inl succeeds ↦ rw (connection_loop, attempts, connects, succeeds) (refl, called)
      | inr fails_again ↦
          rw (connection_loop, attempts, connects, fails_again) (later, Same-trans called same)
    ]
