-- ===== src/Client/Gamer.antt =====
-- `Gamer` of src/client/gamer.cpp. What its socket brings is given: the attempts to connect, then one
-- `Round` for each message that it waits for.
pub mod Game
use Prim.Native.String.{String, ◌++◌ as append}
use angry_balls.Base.{ℕ, List, [], ◌∷◌, Bool, true, false, Option, none, some}
use angry_balls.Double.{Double}
use angry_balls.Units.{FieldState, Acceleration}
use angry_balls.Protocol.{
  Message, client_subscribe_request_message, client_subscribe_result_message, field_state_message,
  turn_message, finish_message,
}
use angry_balls.Protocol.Json.{Json}
use angry_balls.Protocol.Build.{build_json_message}
use angry_balls.Protocol.Parse.{parsed, null, failed, parse_json_message}

-- What `RecvAll` appends to the message, or that it returns -1; and whether the `SendAll` that belongs
-- to the same round returns -1. A `SendAll` that does not brings the whole message over.
pub record Round : Type 0 where
  pub received : Option String
  pub send_fails : Bool

-- What `Turn` does: it writes an answer, returns false, or fails in an assertion or in the strategy.
pub data Turned (S : Type 0) : Type 0 where
  answers : String → S → Turned S
  declines : Turned S
  aborts : Turned S

-- Where `Run` stands after the rounds given, or how it has ended.
pub data Ended : Type 0 where
  connecting playing refused finished lost aborted : Ended

pub record Played (S : Type 0) : Type 0 where
  pub sent : List String
  pub ended : Ended
  pub strategy : S

abbrev pub after_sending : {S : Type 0} → String → Played S → Played S
after_sending message p = record p { sent = message ∷ p.sent }

-- `while (!network_.Connection(port_))`.
unfoldable pub connects : List Bool → Bool
connects [] = false
connects (true ∷ attempts) = true
connects (false ∷ attempts) = connects attempts

module _ {N V : Type 0} (j : Json N V) where
  -- `Finish`; a message of another type is reported and taken for the end all the same. `none` is a
  -- failed assertion.
  unfoldable pub gamer_finish : String → Option Bool
  gamer_finish json_state = elim (parse_json_message j json_state) [
    | null ↦ some false
    | failed ↦ none
    | parsed m ↦ some true
  ]

  -- `ConnectionToServer` after the answer has come: the id of the player, or a refusal.
  unfoldable pub subscribe_result : String → Option (Option ℕ)
  subscribe_result json = elim (parse_json_message j json) [
    | null ↦ some none
    | failed ↦ none
    | parsed (client_subscribe_result_message true id) ↦ some (some id)
    | parsed _ ↦ some none
  ]

module _ {N V S : Type 0} ⦃d : Double N⦄ (j : Json N V)
    (get_turn : FieldState N → ℕ → S → Option (Acceleration N × S)) where
  unfoldable pub gamer_turn : ℕ → String → S → Turned S
  gamer_turn player_id json_state s = elim (parse_json_message j json_state) [
    | null ↦ declines
    | failed ↦ aborts
    | parsed (field_state_message state) ↦ elim (get_turn state player_id s) [
      | none ↦ aborts
      | some (acceleration, s') ↦
          answers
            (build_json_message j (
              turn_message (record {
                player_id = player_id;
                state_id = state.id;
                acceleration = acceleration;
              })))
            s'
    ]
    | parsed _ ↦ declines
  ]

  -- The loop of `Run`; after a failed `SendAll` the message is not cleared.
  unfoldable pub run_loop : ℕ → String → S → List Round → Played S
  unfolding gamer_turn gamer_finish
  run_loop player_id json_message s [] = record { sent = []; ended = playing; strategy = s }
  run_loop player_id json_message s (r ∷ rs) = elim r.received [
    | none ↦ record { sent = []; ended = lost; strategy = s }
    | some text ↦
        let json = append json_message text in
        elim (gamer_turn player_id json s) [
          | aborts ↦ record { sent = []; ended = aborted; strategy = s }
          | answers json_turn s' ↦ elim r.send_fails [
            | true ↦ run_loop player_id json s' rs
            | false ↦ after_sending json_turn (run_loop player_id "" s' rs)
          ]
          | declines ↦ elim (gamer_finish j json) [
            | none ↦ record { sent = []; ended = aborted; strategy = s }
            | some true ↦ record { sent = []; ended = finished; strategy = s }
            | some false ↦ run_loop player_id "" s rs
          ]
        ]
  ]

  -- `Run`, `ConnectionToServer` first; its round is the one of the subscription.
  unfoldable pub gamer_run : List Bool → Round → List Round → S → Played S
  unfolding connects run_loop subscribe_result
  gamer_run attempts r rs s = elim (connects attempts) [
    | false ↦ record { sent = []; ended = connecting; strategy = s }
    | true ↦ elim r.send_fails [
      | true ↦ record { sent = []; ended = refused; strategy = s }
      | false ↦
          after_sending (build_json_message j client_subscribe_request_message) (elim r.received [
            | none ↦ record { sent = []; ended = refused; strategy = s }
            | some json ↦ elim (subscribe_result j json) [
              | none ↦ record { sent = []; ended = aborted; strategy = s }
              | some none ↦ record { sent = []; ended = refused; strategy = s }
              | some (some player_id) ↦ run_loop player_id "" s rs
            ]
          ])
    ]
  ]
