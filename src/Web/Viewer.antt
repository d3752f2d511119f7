-- ===== src/Web/Viewer.antt =====
-- `ViewerClient` of src/web-ui-client/viewer_client.cpp: the connection of the web server to the game.
-- Its streams of bytes are in Stream; here the messages that they bring are given, each as its text.
pub mod Stream
pub mod Following
use Prim.Native.String.{String}
use angry_balls.Base.{ℕ, List, [], ◌∷◌, Bool, true, false, Option, none, some}
use angry_balls.Units.{FieldState}
use angry_balls.Protocol.{
  Message, viewer_subscribe_result_message, field_state_message, finish_message,
}
use angry_balls.Protocol.Json.{Json}
use angry_balls.Protocol.Parse.{parsed, null, failed, parse_json_message}

-- `field_` and `have_field_`, which the mutex guards: each of `get_next_field_state` and `get_field`
-- reads or writes them in one critical section.
pub record Viewer (N : Type 0) : Type 0 where
  pub field : FieldState N
  pub have_field : Bool

-- What `GetNextFieldState` does: it returns with `should_continue`, or an error, or an assertion fails.
pub data Next (N : Type 0) : Type 0 where
  next : Bool → Viewer N → Next N
  error : Next N
  aborts : Next N

-- `Run` has returned so much, is waiting for the next message, or an assertion has failed.
pub data Outcome (N : Type 0) : Type 0 where
  returns : ℕ → Viewer N → Outcome N
  waiting : Viewer N → Outcome N
  aborted : Viewer N → Outcome N

module _ {N : Type 0} where
  -- The constructor; `garbage` is what `field_` holds.
  unfoldable pub viewer_client : FieldState N → Viewer N
  viewer_client garbage = record { field = garbage; have_field = false }

  -- `GetField`.
  unfoldable pub get_field : Viewer N → FieldState N × Bool
  get_field v = (v.field, v.have_field)

  module _ {V : Type 0} (j : Json N V) where
    -- `Handshake` after its request was sent; `none` is a failed assertion.
    unfoldable pub handshake : String → Option Bool
    handshake text = elim (parse_json_message j text) [
      | null ↦ some false
      | failed ↦ none
      | parsed (viewer_subscribe_result_message result id) ↦ some result
      | parsed _ ↦ some false
    ]

    -- `GetNextFieldState` with what `ReceiveFullMessage` brings, `none` for its error.
    unfoldable pub get_next_field_state : Option String → Viewer N → Next N
    get_next_field_state none v = error
    get_next_field_state (some text) v = elim (parse_json_message j text) [
      | null ↦ error
      | failed ↦ aborts
      | parsed finish_message ↦ next false v
      | parsed (field_state_message state) ↦ next true (record { field = state; have_field = true })
      | parsed _ ↦ error
    ]

    -- The loop of `Run`.
    unfoldable pub follow : Viewer N → List (Option String) → Outcome N
    unfolding get_next_field_state
    follow v [] = waiting v
    follow v (m ∷ ms) = elim (get_next_field_state m v) [
      | error ↦ returns 1 v
      | aborts ↦ aborted v
      | next true v' ↦ follow v' ms
      | next false v' ↦ returns 0 v'
    ]

    -- `Run`: whether `ConnectSocket` and the sending of the request succeed, what comes in answer to
    -- the request, and what comes then.
    unfoldable pub viewer_run :
        Bool → Bool → Option String → List (Option String) → Viewer N → Outcome N
    unfolding handshake follow
    viewer_run false sends answer ms v = returns 1 v
    viewer_run true false answer ms v = returns 1 v
    viewer_run true true none ms v = returns 1 v
    viewer_run true true (some text) ms v = elim (handshake text) [
      | none ↦ aborted v
      | some false ↦ returns 1 v
      | some true ↦ follow v ms
    ]
