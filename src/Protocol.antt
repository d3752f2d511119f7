-- ===== src/Protocol.antt =====
-- include/protocol/protocol.h: the messages between the server, the clients and the viewers. Their
-- names are in Names, their JSON form in Build and Parse.
pub mod Names
pub mod Json
pub mod Build
pub mod Parse
pub mod RoundTrip
use angry_balls.Base.{ℕ, Bool}
use angry_balls.Units.{FieldState, Turn}

pub data MessageType : Type 0 where
  client_subscribe_request : MessageType
  client_subscribe_result : MessageType
  viewer_subscribe_request : MessageType
  viewer_subscribe_result : MessageType
  field_state : MessageType
  turn : MessageType
  finish : MessageType

-- The classes derived from `Message`, one constructor each; a result with its flag and its id.
pub data Message (N : Type 0) : Type 0 where
  client_subscribe_request_message : Message N
  client_subscribe_result_message : Bool → ℕ → Message N
  viewer_subscribe_request_message : Message N
  viewer_subscribe_result_message : Bool → ℕ → Message N
  field_state_message : FieldState N → Message N
  turn_message : Turn N → Message N
  finish_message : Message N

-- The member `type`, which each class sets in its constructor.
abbrev pub type_of : {N : Type 0} → Message N → MessageType
type_of client_subscribe_request_message = client_subscribe_request
type_of (client_subscribe_result_message result id) = client_subscribe_result
type_of viewer_subscribe_request_message = viewer_subscribe_request
type_of (viewer_subscribe_result_message result id) = viewer_subscribe_result
type_of (field_state_message s) = field_state
type_of (turn_message t) = turn
type_of finish_message = finish
