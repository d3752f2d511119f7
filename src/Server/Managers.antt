-- ===== src/Server/Managers.antt =====
-- src/server/message_manager.cpp, observers_manager.cpp and json_message.hpp: who is connected, who
-- is told what. `C` is the type of the connections; `is_open` says of one whether its weak pointer
-- can be locked.
pub mod Wired
use Prim.Native.String.{String}
use Prim.Native.String.{◌++◌ as append}
use angry_balls.Base.{
  ℕ, ◌-◌, ◌+◌, List, [], ◌∷◌, ◌++◌, Bool, true, false, Option, none, some, length, get_elem?,
  if◌then◌else◌,
}
use angry_balls.Double.{Double}
use angry_balls.Units.{FieldState, Turn}
use angry_balls.Protocol.{
  Message, client_subscribe_request_message, client_subscribe_result_message,
  viewer_subscribe_request_message, viewer_subscribe_result_message, field_state_message,
  turn_message, finish_message,
}
use angry_balls.Protocol.Parse.{Parsed, parsed, null, failed}
use angry_balls.Server.GameState.Interface.{Generators}
use angry_balls.Server.GameState.{
  Manager, Added, refused, added, searching, aborted, out_of_range, add_player, add_turn,
}

-- The three managers together. `output` is what was put in the queues of the connections, in order.
pub record Server (N G C : Type 0) : Type 0 where
  pub manager : Manager N G
  pub connections : List C
  pub client_ids : List ℕ
  pub viewer_ids : List ℕ
  pub output : List (C × Message N)

-- A call returns, throws by `at`, reads through a null pointer, fails an assertion, or is still
-- looking for the place of a new player.
pub data Called {ℓ} (A : Type ℓ) : Type ℓ where
  returns : A → Called A
  throws null_read asserts searches : Called A

infixl 5 ◌>>=◌
abbrev pub ◌>>=◌ {ℓ κ} : {A : Type ℓ} {B : Type κ} → Called A → (A → Called B) → Called B
returns a >>= f = f a
throws >>= f = throws
null_read >>= f = null_read
asserts >>= f = asserts
searches >>= f = searches

-- The message pointer that `ParseJsonMessage` gave.
abbrev pub pointer : {A : Type 0} → Parsed A → Called A
pointer (parsed a) = returns a
pointer null = null_read
pointer failed = asserts

module _ {N G C : Type 0} ⦃d : Double N⦄ (is_open : C → Bool) (gen : Generators N G) where
  -- `MessageManager::SendMessage`.
  unfoldable pub send_message : Message N → ℕ → Server N G C → Called (Server N G C)
  send_message m connection_id s = elim (get_elem? s.connections connection_id) [
    | none ↦ throws
    | some c ↦ returns (if is_open c then record s { output = s.output ++ (c, m) ∷ [] } else s)
  ]

  -- `ObserversManager::SendMessageToConnections`.
  unfoldable pub send_message_to_connections :
      Message N → List ℕ → Server N G C → Called (Server N G C)
  unfolding send_message
  send_message_to_connections m [] s = returns s
  send_message_to_connections m (i ∷ is) s = do
    sent ← send_message m i s
    send_message_to_connections m is sent

  -- `AddConnection`: the id is the index of the new entry.
  unfoldable pub add_connection : C → Server N G C → ℕ × Server N G C
  add_connection c s =
      let connections = s.connections ++ c ∷ [] in
      (length connections - 1, record s { connections = connections })

  -- `SendClientConfirmation`.
  abbrev pub send_client_confirmation : ℕ → ℕ → Bool → Server N G C → Called (Server N G C)
  send_client_confirmation id player_id client_added s =
      send_message_to_connections (client_subscribe_result_message client_added player_id) (id ∷ [])
        s

  -- `SendViewerConfirmation`.
  abbrev pub send_viewer_confirmation : ℕ → ℕ → Server N G C → Called (Server N G C)
  send_viewer_confirmation id viewer_id s =
      send_message_to_connections (viewer_subscribe_result_message true viewer_id) (id ∷ []) s

  -- `ObserversManager::AddClient`; `garbage` is what `player_id` holds if no player is added.
  unfoldable pub add_client : ℕ → ℕ → Server N G C → Called (Server N G C)
  add_client garbage id s =
      let listed = record s { client_ids = s.client_ids ++ id ∷ [] } in
      elim (add_player gen s.manager) [
        | refused ↦ send_client_confirmation id garbage false listed
        | added player_id m ↦
            send_client_confirmation id player_id true (record listed { manager = m })
        | searching ↦ searches
        | aborted ↦ asserts
        | out_of_range ↦ throws
      ]

  -- `ObserversManager::AddViewer`.
  unfoldable pub add_viewer : ℕ → Server N G C → Called (Server N G C)
  add_viewer id s =
      let viewers = s.viewer_ids ++ id ∷ [] in
      send_viewer_confirmation id (length viewers - 1) (record s { viewer_ids = viewers })

  -- `MessageManager::DispatchMessage`.
  unfoldable pub dispatch_message : ℕ → Message N → ℕ → Server N G C → Called (Server N G C)
  unfolding add_client add_viewer
  dispatch_message garbage client_subscribe_request_message id s = add_client garbage id s
  dispatch_message garbage viewer_subscribe_request_message id s = add_viewer id s
  dispatch_message garbage (turn_message t) id s = elim (add_turn t s.manager) [
    | none ↦ throws
    | some m ↦ returns (record s { manager = m })
  ]
  dispatch_message garbage _ id s = returns s

  -- `MessageManager::ReceiveMessage`.
  unfoldable pub receive_message : ℕ → Parsed (Message N) → C → Server N G C → Called (Server N G C)
  unfolding add_connection dispatch_message
  receive_message garbage message c s = do
    let (id, connected) = add_connection c s
    m ← pointer message
    dispatch_message garbage m id connected

  -- `JsonRequestParser::handleRequest`, of the text that was received, with a zero behind it.
  unfoldable pub handle_request :
      ℕ → (String → Parsed (Message N)) → String → C → Server N G C → Called (Server N G C)
  unfolding receive_message
  handle_request garbage parse_json_message data_text c s =
      if is_open c
      then receive_message garbage (parse_json_message (append data_text "\0")) c s
      else returns s

  -- `SendStateToAllObservers` and `SendFinishToAllObservers`.
  unfoldable pub send_to_all_observers : Message N → Server N G C → Called (Server N G C)
  unfolding send_message_to_connections
  send_to_all_observers m s = do
    told ← send_message_to_connections m s.client_ids s
    send_message_to_connections m told.viewer_ids told
