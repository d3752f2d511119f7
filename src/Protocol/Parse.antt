-- ===== src/Protocol/Parse.antt =====
-- The parsing half of lib/protocol/protocol.cpp.
use Prim.Native.String.{String}
use angry_balls.Base.{
  ℕ, List, [], ◌∷◌, Bool, true, false, not, ◌&&◌, Option, none, some, if◌then◌else◌,
}
use angry_balls.Units.{Player, Coin, FieldState, Turn}
use angry_balls.Protocol.{
  MessageType, Message, client_subscribe_request_message, client_subscribe_result_message,
  viewer_subscribe_request_message, viewer_subscribe_result_message, field_state_message,
  turn_message, finish_message, client_subscribe_request, client_subscribe_result,
  viewer_subscribe_request, viewer_subscribe_result, field_state, turn, finish,
}
use angry_balls.Protocol.Json.{Json, found, missing, misuse}
use angry_balls.Protocol.Names.{try_from_string}

-- A value, the null pointer, or a failed assertion.
pub data Parsed (A : Type 0) : Type 0 where
  parsed : A → Parsed A
  null : Parsed A
  failed : Parsed A

infixl 5 ◌>>=◌ ◌>>◌
abbrev pub ◌>>=◌ : {A B : Type 0} → Parsed A → (A → Parsed B) → Parsed B
parsed a >>= f = f a
null >>= f = null
failed >>= f = failed

abbrev pub ◌>>◌ : {B : Type 0} → Parsed (Unit {0}) → Parsed B → Parsed B
m >> k = m >>= λ _. k

abbrev pub or_null : {A : Type 0} → Option A → Parsed A
or_null none = null
or_null (some a) = parsed a

-- `assert`.
abbrev pub check : Bool → Parsed (Unit {0})
check true = parsed tt
check false = failed

module _ {N V : Type 0} (j : Json N V) where
  -- `!json.isMember(key)` returns the null pointer.
  unfoldable pub member : V → String → Parsed V
  member v key = elim (j.get v key) [ found x ↦ parsed x | missing ↦ null | misuse ↦ failed ]

  -- The test and the conversion that stand before each assignment from a member.
  unfoldable pub uint_member : V → String → Parsed ℕ
  unfolding member
  uint_member v key = do x ← member v key; or_null (j.as_uint x)

  unfoldable pub double_member : V → String → Parsed N
  unfolding member
  double_member v key = do x ← member v key; or_null (j.as_double x)

  unfoldable pub array_member : V → String → Parsed (List V)
  unfolding member
  array_member v key = do x ← member v key; or_null (j.elements x)

  -- `assert(json["type"] == name)`; a missing member reads as null, which is no text.
  unfoldable pub check_type : V → String → Parsed (Unit {0})
  check_type v name = elim (j.get v "type") [
    | found x ↦ check (j.is_text x name)
    | missing ↦ failed
    | misuse ↦ failed
  ]

  -- `ParseClientSubscribeResultMessage` and `ParseViewerSubscribeResultMessage`: after the test on
  -- "fail" the flag and the id are written a second time in any case.
  unfoldable pub parse_result : String → V → Parsed (Bool × ℕ)
  unfolding member uint_member check_type
  parse_result name v = do
    check_type v name
    result ← member v "result"
    if not (j.is_text result "fail") && not (j.is_text result "ok")
        then null
        else (do id ← uint_member v "id"; parsed (true, id))

  unfoldable pub parse_player : N → V → Parsed (Player N)
  unfolding uint_member double_member
  parse_player radius v = do
    id ← uint_member v "id"
    x ← double_member v "x"
    y ← double_member v "y"
    v_x ← double_member v "v_x"
    v_y ← double_member v "v_y"
    score ← double_member v "score"
    parsed (record {
      id = id;
      score = score;
      center = record { x = x; y = y };
      radius = radius;
      velocity = record { x = v_x; y = v_y };
    })

  unfoldable pub parse_coin : N → V → Parsed (Coin N)
  unfolding double_member
  parse_coin radius v = do
    x ← double_member v "x"
    y ← double_member v "y"
    value ← double_member v "value"
    parsed (record { center = record { x = x; y = y }; radius = radius; value = value })

  -- The loops over the players and the coins.
  unfoldable pub parse_players : N → List V → Parsed (List (Player N))
  unfolding parse_player
  parse_players radius [] = parsed []
  parse_players radius (v ∷ vs) = do
    p ← parse_player radius v
    ps ← parse_players radius vs
    parsed (p ∷ ps)

  unfoldable pub parse_coins : N → List V → Parsed (List (Coin N))
  unfolding parse_coin
  parse_coins radius [] = parsed []
  parse_coins radius (v ∷ vs) = do
    c ← parse_coin radius v
    cs ← parse_coins radius vs
    parsed (c ∷ cs)

  unfoldable pub parse_field_state : V → Parsed (FieldState N)
  unfolding uint_member double_member array_member check_type parse_players parse_coins
  parse_field_state v = do
    check_type v "STATE"
    id ← uint_member v "state_id"
    radius ← double_member v "field_radius"
    player_radius ← double_member v "player_radius"
    coin_radius ← double_member v "coin_radius"
    time_delta ← double_member v "time_delta"
    velocity_max ← double_member v "velocity_max"
    player_values ← array_member v "players"
    players ← parse_players player_radius player_values
    coin_values ← array_member v "coins"
    coins ← parse_coins coin_radius coin_values
    parsed (record {
      id = id;
      radius = radius;
      time_delta = time_delta;
      velocity_max = velocity_max;
      players = players;
      coins = coins;
    })

  unfoldable pub parse_turn : V → Parsed (Turn N)
  unfolding uint_member double_member check_type
  parse_turn v = do
    check_type v "TURN"
    state_id ← uint_member v "state_id"
    player_id ← uint_member v "id"
    a_x ← double_member v "a_x"
    a_y ← double_member v "a_y"
    parsed (record {
      player_id = player_id;
      state_id = state_id;
      acceleration = record { x = a_x; y = a_y };
    })

  -- The switch of `ParseJsonMessage`.
  unfoldable pub parse_as : MessageType → V → Parsed (Message N)
  unfolding check_type parse_result parse_field_state parse_turn
  parse_as client_subscribe_request v = do
    check_type v "CLI_SUB_REQUEST"
    parsed client_subscribe_request_message
  parse_as client_subscribe_result v = do
    (result, id) ← parse_result "CLI_SUB_RESULT" v
    parsed (client_subscribe_result_message result id)
  parse_as viewer_subscribe_request v = do
    check_type v "VIEW_SUB_REQUEST"
    parsed viewer_subscribe_request_message
  parse_as viewer_subscribe_result v = do
    (result, id) ← parse_result "VIEW_SUB_RESULT" v
    parsed (viewer_subscribe_result_message result id)
  parse_as field_state v = do s ← parse_field_state v; parsed (field_state_message s)
  parse_as turn v = do t ← parse_turn v; parsed (turn_message t)
  parse_as finish v = do check_type v "FINISH"; parsed finish_message

  -- The rest of `ParseJsonMessage`, of a value that was read.
  unfoldable pub parse_root : V → Parsed (Message N)
  unfolding member parse_as
  parse_root root = do
    x ← member root "type"
    name ← elim (j.as_string x) [ none ↦ failed | some s ↦ parsed s ]
    type ← or_null (try_from_string name)
    parse_as type root

  unfoldable pub parse_json_message : String → Parsed (Message N)
  unfolding parse_root
  parse_json_message json = do root ← or_null (j.parse json); parse_root root
