-- ===== src/Protocol/Build.antt =====
-- The building half of lib/protocol/protocol.cpp.
use Prim.Native.String.{String}
use angry_balls.Base.{ℕ, ◌%◌, ◌^◌, List, [], ◌∷◌, Bool, true, false, map}
use angry_balls.Double.{Double, one}
use angry_balls.Units.{Player, Coin, FieldState, Turn}
use angry_balls.Protocol.{
  MessageType, Message, client_subscribe_request_message, client_subscribe_result_message,
  viewer_subscribe_request_message, viewer_subscribe_result_message, field_state_message,
  turn_message, finish_message, client_subscribe_request, client_subscribe_result,
  viewer_subscribe_request, viewer_subscribe_result, field_state, turn, finish,
}
use angry_balls.Protocol.Json.{Json}
use angry_balls.Protocol.Names.{to_string}

module _ {N : Type 0} ⦃d : Double N⦄ where
  -- The radius that is sent for all players, or all coins: that of the first, or 1.
  abbrev pub player_radius : List (Player N) → N
  player_radius [] = one
  player_radius (p ∷ ps) = p.radius

  abbrev pub coin_radius : List (Coin N) → N
  coin_radius [] = one
  coin_radius (c ∷ cs) = c.radius

module _ {N V : Type 0} ⦃d : Double N⦄ (j : Json N V) where
  -- The requests and the end of the game carry their type alone.
  unfoldable pub build_bare : MessageType → V
  build_bare type = j.assigned (("type", j.text (to_string type)) ∷ [])

  -- `BuildClientSubscribeResultMessage` and `BuildViewerSubscribeResultMessage`.
  unfoldable pub build_result : MessageType → Bool → ℕ → V
  build_result type true id =
      j.assigned
        (("type", j.text (to_string type)) ∷ ("result", j.text "ok") ∷ ("id", j.uint id) ∷ [])
  build_result type false id =
      j.assigned (("type", j.text (to_string type)) ∷ ("result", j.text "fail") ∷ [])

  unfoldable pub build_player : Player N → V
  build_player player = j.assigned (
      ("id", j.uint player.id)
      ∷ ("x", j.real player.center.x)
      ∷ ("y", j.real player.center.y)
      ∷ ("v_x", j.real player.velocity.x)
      ∷ ("v_y", j.real player.velocity.y)
      ∷ ("score", j.real player.score)
      ∷ [])

  unfoldable pub build_coin : Coin N → V
  build_coin coin = j.assigned (
      ("x", j.real coin.center.x) ∷ ("y", j.real coin.center.y) ∷ ("value", j.real coin.value) ∷ [])

  -- `BuildFieldStateMessage`; `Json::Value::UInt` has 32 bits.
  unfoldable pub build_field_state : FieldState N → V
  unfolding build_player build_coin
  build_field_state s = j.assigned (
      ("type", j.text (to_string field_state))
      ∷ ("state_id", j.uint (s.id % 2 ^ 32))
      ∷ ("field_radius", j.real s.radius)
      ∷ ("player_radius", j.real (player_radius s.players))
      ∷ ("coin_radius", j.real (coin_radius s.coins))
      ∷ ("time_delta", j.real s.time_delta)
      ∷ ("velocity_max", j.real s.velocity_max)
      ∷ ("players", j.appended (map build_player s.players))
      ∷ ("coins", j.appended (map build_coin s.coins))
      ∷ [])

  unfoldable pub build_turn : Turn N → V
  build_turn t = j.assigned (
      ("type", j.text (to_string turn))
      ∷ ("state_id", j.uint (t.state_id % 2 ^ 32))
      ∷ ("id", j.uint (t.player_id % 2 ^ 32))
      ∷ ("a_x", j.real t.acceleration.x)
      ∷ ("a_y", j.real t.acceleration.y)
      ∷ [])

  -- `BuildJsonMessage`, before the value is written.
  unfoldable pub build : Message N → V
  unfolding build_bare build_result build_field_state build_turn
  build client_subscribe_request_message = build_bare client_subscribe_request
  build (client_subscribe_result_message result id) = build_result client_subscribe_result result id
  build viewer_subscribe_request_message = build_bare viewer_subscribe_request
  build (viewer_subscribe_result_message result id) = build_result viewer_subscribe_result result id
  build (field_state_message s) = build_field_state s
  build (turn_message t) = build_turn t
  build finish_message = build_bare finish

  unfoldable pub build_json_message : Message N → String
  unfolding build
  build_json_message m = j.write (build m)
