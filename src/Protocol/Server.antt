-- ===== src/Protocol/Server.antt =====
-- The JSON form of a server message: its type, and its data.
use Prim.Native.String.{String}
use text.Mathlib.Text.{◌==◌ as str_eq}
use ascii_poker.Prelude.{Option, none, some, if◌then◌else◌}
use ascii_poker.Protocol.{
  ServerMessage, welcome, room_list, joined_room, game_state_update, your_turn, error, left_room,
  hand_result, action_event,
}
use ascii_poker.Protocol.Json.{JsonLibrary, ◌>>=◌}
use ascii_poker.Protocol.Rooms.{
  welcome_to_json, welcome_from_json, room_list_to_json, room_list_from_json, joined_room_to_json,
  joined_room_from_json, error_to_json, error_from_json, left_room_to_json, left_room_from_json,
}
use ascii_poker.Protocol.Table.{
  game_state_update_to_json, game_state_update_from_json, your_turn_to_json, your_turn_from_json,
  hand_result_to_json, hand_result_from_json, action_event_to_json, action_event_from_json,
}

module _ (library : JsonLibrary) where
  open library use {Json, object, string, null, at, set_key, get_string}

  abbrev pub server_type : ServerMessage → String
  server_type (welcome _) = "welcome"
  server_type (room_list _) = "room_list"
  server_type (joined_room _) = "joined_room"
  server_type (game_state_update _) = "game_state_update"
  server_type (your_turn _) = "your_turn"
  server_type (error _) = "error"
  server_type (left_room _) = "left_room"
  server_type (hand_result _) = "hand_result"
  server_type (action_event _) = "action_event"

  unfoldable pub server_data : ServerMessage → Json
  unfolding welcome_to_json room_list_to_json joined_room_to_json game_state_update_to_json
      your_turn_to_json error_to_json left_room_to_json hand_result_to_json action_event_to_json
  server_data (welcome msg) = welcome_to_json library msg
  server_data (room_list msg) = room_list_to_json library msg
  server_data (joined_room msg) = joined_room_to_json library msg
  server_data (game_state_update msg) = game_state_update_to_json library msg
  server_data (your_turn msg) = your_turn_to_json library msg
  server_data (error msg) = error_to_json library msg
  server_data (left_room msg) = left_room_to_json library msg
  server_data (hand_result msg) = hand_result_to_json library msg
  server_data (action_event msg) = action_event_to_json library msg

  unfoldable pub server_to_json : ServerMessage → Json
  unfolding server_data
  server_to_json msg =
      set_key "data" (server_data msg) (set_key "type" (string (server_type msg)) null)

  -- The chain of tests on the type.
  unfoldable pub server_from_data : String → Json → Option ServerMessage
  unfolding welcome_from_json room_list_from_json joined_room_from_json game_state_update_from_json
      your_turn_from_json error_from_json left_room_from_json hand_result_from_json
      action_event_from_json
  server_from_data type content =
      if str_eq type "welcome"
      then (welcome_from_json library content >>= λ msg. some (welcome msg))
      else if str_eq type "room_list"
      then (room_list_from_json library content >>= λ msg. some (room_list msg))
      else if str_eq type "joined_room"
      then (joined_room_from_json library content >>= λ msg. some (joined_room msg))
      else if str_eq type "game_state_update"
      then (game_state_update_from_json library content >>= λ msg. some (game_state_update msg))
      else if str_eq type "your_turn"
      then (your_turn_from_json library content >>= λ msg. some (your_turn msg))
      else if str_eq type "error"
      then (error_from_json library content >>= λ msg. some (error msg))
      else if str_eq type "left_room"
      then (left_room_from_json library content >>= λ msg. some (left_room msg))
      else if str_eq type "hand_result"
      then (hand_result_from_json library content >>= λ msg. some (hand_result msg))
      else if str_eq type "action_event"
      then (action_event_from_json library content >>= λ msg. some (action_event msg))
      else none

  -- Without data every type is refused, one that is not known as well.
  unfoldable pub server_from_json : Json → Option ServerMessage
  unfolding server_from_data
  server_from_json j = do
    type ← at "type" j >>= get_string
    content ← at "data" j
    server_from_data type content
