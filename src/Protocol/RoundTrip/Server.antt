-- ===== src/Protocol/RoundTrip/Server.antt =====
-- The messages of the server, read back: common/src/protocol.cpp.
use Prim.Native.String.{String}
use ascii_poker.Prelude.{◌≡◌, ◌∙◌, some}
use ascii_poker.Protocol.{
  ServerMessage, welcome, room_list, joined_room, game_state_update, your_turn, error, left_room,
  hand_result, action_event,
}
use ascii_poker.Protocol.Json.{JsonLibrary}
use ascii_poker.Protocol.Fits.{ServerFits}
use ascii_poker.Protocol.Server.{
  server_to_json, server_from_json, server_from_data, server_type, server_data,
}
use ascii_poker.Protocol.RoundTrip.Rooms.{
  welcome_round, room_list_round, joined_room_round, error_round, left_room_round,
}
use ascii_poker.Protocol.RoundTrip.Table.{
  game_state_update_round, your_turn_round, hand_result_round, action_event_round,
}

module _ (library : JsonLibrary) where
  open library use {
    Json, at, string, null, set_key, at-object, set_key-object, set_key-null, get_string-string,
    get_word-number, get_bool-boolean, get_items-array,
  }

  server_from_json-message :
      (type : String) (content : Json)
      → server_from_json library (set_key "data" content (set_key "type" (string type) null))
        ≡ server_from_data library type content
  unfolding server_from_json
  server_from_json-message type content =
      simp (at-object, set_key-object, set_key-null, get_string-string)

  -- A server message is read back from its type and data.
  server_content_round :
      (m : ServerMessage)
      → ServerFits m
      → server_from_data library (server_type library m) (server_data library m) ≡ some m
  unfolding server_from_data server_data ServerFits
  server_content_round (welcome m) h = simp (welcome_round library m h)
  server_content_round (room_list m) h = simp (room_list_round library m h)
  server_content_round (joined_room m) h = simp (joined_room_round library m h)
  server_content_round (game_state_update m) h = simp (game_state_update_round library m h)
  server_content_round (your_turn m) h = simp (your_turn_round library m h)
  server_content_round (error m) h = simp (error_round library m h)
  server_content_round (left_room m) h = simp (left_room_round library m h)
  server_content_round (hand_result m) h = simp (hand_result_round library m h)
  server_content_round (action_event m) h = simp (action_event_round library m h)

  -- Every server message whose numbers fit their types is read back from its JSON form.
  pub server_from_json-server_to_json :
      (m : ServerMessage)
      → ServerFits m
      → server_from_json library (server_to_json library m) ≡ some m
  unfolding server_to_json
  server_from_json-server_to_json m h =
      server_from_json-message (server_type library m) (server_data library m)
      ∙ server_content_round m h
