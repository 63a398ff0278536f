-- ===== src/Protocol/RoundTrip/Client.antt =====
-- The messages of the client, read back: common/src/protocol.cpp.
use Prim.Native.String.{String}
use native.Mathlib.Nat.{mod-eq_of_lt}
use ascii_poker.Prelude.{◌≡◌, refl, ◌∙◌, some}
use ascii_poker.Protocol.{
  PlayerAction, ClientMessage, login, create_room, join_room, leave_room, list_rooms, start_game,
  player_action,
}
use ascii_poker.Protocol.Json.{JsonLibrary}
use ascii_poker.Protocol.Fits.{AmountFits, ClientFits}
use ascii_poker.Protocol.Client.{
  client_to_json, client_from_json, client_from_data, client_type, client_data, login_to_json,
  login_from_json, create_room_to_json, create_room_from_json, join_room_to_json,
  join_room_from_json, player_action_to_json, player_action_from_json,
}
use ascii_poker.Protocol.RoundTrip.Words.{action_round, amount_round}

module _ (library : JsonLibrary) where
  open library use {
    Json, at, string, null, set_key, at-object, set_key-object, set_key-null, get_string-string,
    get_word-number, is_null-null, is_null-number,
  }

  client_from_json-message :
      (type : String) (content : Json)
      → client_from_json library (set_key "data" content (set_key "type" (string type) null))
        ≡ client_from_data library type content
  unfolding client_from_json
  client_from_json-message type content =
      simp (at-object, set_key-object, set_key-null, get_string-string)

  player_action_round :
      (m : PlayerAction)
      → AmountFits m.amount
      → player_action_from_json library (player_action_to_json library m) ≡ some m
  unfolding player_action_from_json player_action_to_json
  player_action_round m h =
      simp (at-object, set_key-object, action_round library, amount_round library m.amount)

  -- A client message is read back from its type and data.
  content_round :
      (m : ClientMessage)
      → ClientFits m
      → client_from_data library (client_type library m) (client_data library m) ≡ some m
  unfolding client_from_data client_data ClientFits AmountFits login_to_json login_from_json
      create_room_to_json create_room_from_json join_room_to_json join_room_from_json
  content_round (login m) h = simp (at-object, get_string-string)
  content_round (create_room m) h =
      simp (at-object, get_string-string, get_word-number, mod-eq_of_lt)
  content_round (join_room m) h = simp (at-object, get_word-number, mod-eq_of_lt)
  content_round leave_room h = refl
  content_round list_rooms h = refl
  content_round start_game h = refl
  content_round (player_action m) h = simp (player_action_round m h)

  -- Every client message whose numbers fit their types is read back from its JSON form.
  pub client_from_json-client_to_json :
      (m : ClientMessage)
      → ClientFits m
      → client_from_json library (client_to_json library m) ≡ some m
  unfolding client_to_json
  client_from_json-client_to_json m h =
      client_from_json-message (client_type library m) (client_data library m) ∙ content_round m h
