-- ===== src/Protocol/RoundTrip.antt =====
-- What a message is when it arrives at the other side.
mod Members
use Members.{
  uint_member-assigned, double_member-assigned, array_member-assigned, check_type-assigned,
  parse_players-build, parse_coins-build,
}
use Prim.Native.String.{String}
use text.Mathlib.Text.{◌==◌ as str_eq}
use angry_balls.Base.{
  ℕ, ◌%◌, ◌^◌, ◌<◌, List, [], ◌∷◌, true, false, map, some, All, ◌≡◌, refl, arith,
}
use angry_balls.Double.{Double}
use angry_balls.Units.{Player, Coin, FieldState, Turn}
use angry_balls.Protocol.{
  MessageType, Message, client_subscribe_request_message, client_subscribe_result_message,
  viewer_subscribe_request_message, viewer_subscribe_result_message, field_state_message,
  turn_message, finish_message, client_subscribe_request, client_subscribe_result,
  viewer_subscribe_request, viewer_subscribe_result, field_state, turn, finish,
}
use angry_balls.Protocol.Json.{Json, IsJson, found, missing, last_assigned}
use angry_balls.Protocol.Names.{index_of, to_string, try_from_string-to_string}
use angry_balls.Protocol.Build.{
  build_bare, build_result, build_player, build_coin, build_field_state, build_turn, build,
  player_radius, coin_radius, build_json_message,
}
use angry_balls.Protocol.Parse.{
  Parsed, parsed, null, member, uint_member, double_member, array_member, check_type, parse_result,
  parse_player, parse_coin, parse_players, parse_coins, parse_field_state, parse_turn, parse_as,
  parse_root, parse_json_message,
}

-- The ids of a message fit the 32 bits of a `PlayerId`.
abbrev pub IsNarrow : {N : Type 0} → Message N → Type 0
IsNarrow (client_subscribe_result_message result id) = id < 2 ^ 32
IsNarrow (viewer_subscribe_result_message result id) = id < 2 ^ 32
IsNarrow (field_state_message s) = All (λ p. p.id < 2 ^ 32) s.players
IsNarrow (turn_message t) = t.player_id < 2 ^ 32
IsNarrow _ = Unit

module _ {N : Type 0} ⦃d : Double N⦄ where
  -- All players and all coins arrive with one radius, and the number of the state modulo 2 ^ 32.
  abbrev pub arriving : FieldState N → FieldState N
  arriving s = record {
    id = s.id % 2 ^ 32;
    radius = s.radius;
    time_delta = s.time_delta;
    velocity_max = s.velocity_max;
    players = map (λ (p : Player N). record p { radius = player_radius s.players }) s.players;
    coins = map (λ (c : Coin N). record c { radius = coin_radius s.coins }) s.coins;
  }

  -- A refusal does not arrive at all: the parser asks it for an id.
  abbrev pub arrives : Message N → Parsed (Message N)
  arrives (client_subscribe_result_message false id) = null
  arrives (viewer_subscribe_result_message false id) = null
  arrives (field_state_message s) = parsed (field_state_message (arriving s))
  arrives (turn_message t) = parsed (turn_message (record t { state_id = t.state_id % 2 ^ 32 }))
  arrives m = parsed m

  module _ {V : Type 0} (j : Json N V) (laws : IsJson j) where
    parse_result_ok :
        (name : String) (id : ℕ)
        → str_eq name name ≡ true
        → id < 2 ^ 32
        → parse_result j name
            (j.assigned (("type", j.text name) ∷ ("result", j.text "ok") ∷ ("id", j.uint id) ∷ []))
          ≡ parsed (true, id)
    unfolding parse_result member
    parse_result_ok name id same h =
        let fields : List (String × V) =
          ("type", j.text name) ∷ ("result", j.text "ok") ∷ ("id", j.uint id) ∷ [] in
        rw
          (
            parse_result,
            check_type-assigned j laws fields name refl same,
            uint_member-assigned j laws fields "id" id h refl,
            member,
            laws.get-assigned fields "result",
            laws.is_text-text "ok" "fail",
            laws.is_text-text "ok" "ok",
          )
          refl

    parse_result_fail :
        (name : String)
        → str_eq name name ≡ true
        → parse_result j name (j.assigned (("type", j.text name) ∷ ("result", j.text "fail") ∷ []))
          ≡ null
    unfolding parse_result member uint_member
    parse_result_fail name same =
        let fields : List (String × V) = ("type", j.text name) ∷ ("result", j.text "fail") ∷ [] in
        rw
          (
            parse_result,
            check_type-assigned j laws fields name refl same,
            uint_member,
            member,
            laws.get-assigned fields "result",
            laws.get-assigned fields "id",
            laws.is_text-text "fail" "fail",
          )
          refl

    narrow : (n : ℕ) → n % 2 ^ 32 < 2 ^ 32
    narrow n = omega arith

    parse_field_state-build :
        (s : FieldState N)
        → All (λ p. p.id < 2 ^ 32) s.players
        → parse_field_state j (build_field_state j s) ≡ parsed (arriving s)
    unfolding parse_field_state build_field_state to_string index_of
    parse_field_state-build s h =
        rw
          (
            check_type-assigned j laws _ "STATE" refl refl,
            uint_member-assigned j laws _ "state_id" (s.id % 2 ^ 32) (narrow s.id) refl,
            double_member-assigned j laws _ "field_radius" s.radius refl,
            double_member-assigned j laws _ "player_radius" (player_radius s.players) refl,
            double_member-assigned j laws _ "coin_radius" (coin_radius s.coins) refl,
            double_member-assigned j laws _ "time_delta" s.time_delta refl,
            double_member-assigned j laws _ "velocity_max" s.velocity_max refl,
            array_member-assigned j laws _ "players" (map (build_player j) s.players) refl,
            parse_players-build j laws (player_radius s.players) s.players h,
            array_member-assigned j laws _ "coins" (map (build_coin j) s.coins) refl,
            parse_coins-build j laws (coin_radius s.coins) s.coins,
          )
          refl

    parse_turn-build :
        (t : Turn N)
        → t.player_id < 2 ^ 32
        → parse_turn j (build_turn j t) ≡ parsed (record t { state_id = t.state_id % 2 ^ 32 })
    unfolding parse_turn build_turn to_string index_of
    parse_turn-build t h =
        let same : t.player_id % 2 ^ 32 ≡ t.player_id = omega arith in
        rw
          (
            check_type-assigned j laws _ "TURN" refl refl,
            uint_member-assigned j laws _ "state_id" (t.state_id % 2 ^ 32) (narrow t.state_id) refl,
            uint_member-assigned j laws _ "id" (t.player_id % 2 ^ 32) (narrow t.player_id) refl,
            double_member-assigned j laws _ "a_x" t.acceleration.x refl,
            double_member-assigned j laws _ "a_y" t.acceleration.y refl,
            same,
          )
          refl

    parse_root-assigned :
        (fields : List (String × V)) (t : MessageType)
        → last_assigned fields "type" missing ≡ found (j.text (to_string t))
        → parse_root j (j.assigned fields) ≡ parse_as j t (j.assigned fields)
    unfolding parse_root member
    parse_root-assigned fields t e =
        rw
          (
            parse_root,
            member,
            laws.get-assigned fields "type",
            e,
            laws.as_string-text (to_string t),
            try_from_string-to_string t,
          )
          refl

    parse_root-build : (m : Message N) → IsNarrow m → parse_root j (build j m) ≡ arrives m
    unfolding build build_bare build_result build_turn build_field_state parse_as parse_result
        to_string index_of
    parse_root-build client_subscribe_request_message h =
        rw
          (
            parse_root-assigned _ client_subscribe_request refl,
            check_type-assigned j laws _ "CLI_SUB_REQUEST" refl refl,
          )
          refl
    parse_root-build (client_subscribe_result_message true id) h =
        rw
          (
            parse_root-assigned _ client_subscribe_result refl,
            parse_result_ok "CLI_SUB_RESULT" id refl h,
          )
          refl
    parse_root-build (client_subscribe_result_message false id) h =
        rw
          (
            parse_root-assigned _ client_subscribe_result refl,
            parse_result_fail "CLI_SUB_RESULT" refl,
          )
          refl
    parse_root-build viewer_subscribe_request_message h =
        rw
          (
            parse_root-assigned _ viewer_subscribe_request refl,
            check_type-assigned j laws _ "VIEW_SUB_REQUEST" refl refl,
          )
          refl
    parse_root-build (viewer_subscribe_result_message true id) h =
        rw
          (
            parse_root-assigned _ viewer_subscribe_result refl,
            parse_result_ok "VIEW_SUB_RESULT" id refl h,
          )
          refl
    parse_root-build (viewer_subscribe_result_message false id) h =
        rw
          (
            parse_root-assigned _ viewer_subscribe_result refl,
            parse_result_fail "VIEW_SUB_RESULT" refl,
          )
          refl
    parse_root-build (field_state_message s) h =
        rw (parse_root-assigned _ field_state refl, parse_field_state-build s h) refl
    parse_root-build (turn_message t) h =
        rw (parse_root-assigned _ turn refl, parse_turn-build t h) refl
    parse_root-build finish_message h =
        rw (parse_root-assigned _ finish refl, check_type-assigned j laws _ "FINISH" refl refl) refl

    -- Any text that is read as the value of a message.
    pub parse_json_message-build :
        (m : Message N) (text : String)
        → IsNarrow m
        → j.parse text ≡ some (build j m)
        → parse_json_message j text ≡ arrives m
    unfolding parse_json_message
    parse_json_message-build m text h e = rw (e, parse_root-build m h) refl

    -- Each message arrives as `arrives` says, if the text that was written for it is read as the
    -- value that was written, its ids have 32 bits and the JSON library keeps its laws: requests,
    -- confirmations and the end of the game as they were, a turn and a state with the number of the
    -- state modulo 2 ^ 32, the players and the coins of a state with the first one's radius, and a
    -- refusal as the null pointer.
    pub parse-build_json_message :
        (m : Message N)
        → IsNarrow m
        → j.parse (build_json_message j m) ≡ some (build j m)
        → parse_json_message j (build_json_message j m) ≡ arrives m
    parse-build_json_message m h e = parse_json_message-build m (build_json_message j m) h e
