-- ===== src/Protocol/Client.antt =====
-- The JSON form of the client's messages: common/src/protocol.cpp.
use Prim.Native.String.{String}
use text.Mathlib.Text.{◌==◌ as str_eq}
use ascii_poker.Prelude.{ℕ, [], ◌∷◌, Option, none, some, if◌then◌else◌}
use ascii_poker.Protocol.{
  Login, CreateRoom, PlayerAction, ClientMessage, login, create_room, join_room, leave_room,
  list_rooms, start_game, player_action,
}
use ascii_poker.Protocol.Json.{JsonLibrary, ◌>>=◌, optional_number, optional_amount}
use ascii_poker.Protocol.Words.{action_name, action_from_json}

module _ (library : JsonLibrary) where
  open library use {
    Json, object, array, string, number, boolean, null, at, set_key, get_string, get_word, get_bool,
  }

  unfoldable pub login_to_json : Login → Json
  login_to_json msg =
      object (("username", string msg.username) ∷ ("password", string msg.password) ∷ [])

  unfoldable pub login_from_json : Json → Option Login
  login_from_json j = do
    username ← at "username" j >>= get_string
    password ← at "password" j >>= get_string
    some (record { username = username; password = password })

  unfoldable pub create_room_to_json : CreateRoom → Json
  create_room_to_json msg =
      object (("room_name", string msg.room_name) ∷ ("max_players", number msg.max_players) ∷ [])

  unfoldable pub create_room_from_json : Json → Option CreateRoom
  create_room_from_json j = do
    room_name ← at "room_name" j >>= get_string
    max_players ← at "max_players" j >>= get_word 8
    some (record { room_name = room_name; max_players = max_players })

  unfoldable pub join_room_to_json : ℕ → Json
  join_room_to_json room_id = object (("room_id", number room_id) ∷ [])

  unfoldable pub join_room_from_json : Json → Option ℕ
  join_room_from_json j = at "room_id" j >>= get_word 64

  unfoldable pub player_action_to_json : PlayerAction → Json
  player_action_to_json msg =
      set_key "amount" (optional_number library msg.amount)
        (object (("action", string (action_name msg.action)) ∷ []))

  unfoldable pub player_action_from_json : Json → Option PlayerAction
  unfolding action_from_json
  player_action_from_json j = do
    action ← at "action" j
    amount ← optional_amount library j
    some (record { action = action_from_json library action; amount = amount })

  -- The name and the data of a message; the messages without data have an empty object.
  abbrev pub client_type : ClientMessage → String
  client_type (login _) = "login"
  client_type (create_room _) = "create_room"
  client_type (join_room _) = "join_room"
  client_type leave_room = "leave_room"
  client_type list_rooms = "list_rooms"
  client_type start_game = "start_game"
  client_type (player_action _) = "player_action"

  unfoldable pub client_data : ClientMessage → Json
  unfolding login_to_json create_room_to_json join_room_to_json player_action_to_json
  client_data (login msg) = login_to_json msg
  client_data (create_room msg) = create_room_to_json msg
  client_data (join_room room_id) = join_room_to_json room_id
  client_data leave_room = object []
  client_data list_rooms = object []
  client_data start_game = object []
  client_data (player_action msg) = player_action_to_json msg

  unfoldable pub client_to_json : ClientMessage → Json
  unfolding client_data
  client_to_json msg =
      set_key "data" (client_data msg) (set_key "type" (string (client_type msg)) null)

  -- The chain of tests on the type.
  unfoldable pub client_from_data : String → Json → Option ClientMessage
  unfolding login_from_json create_room_from_json join_room_from_json player_action_from_json
  client_from_data type content =
      if str_eq type "login"
      then (login_from_json content >>= λ msg. some (login msg))
      else if str_eq type "create_room"
      then (create_room_from_json content >>= λ msg. some (create_room msg))
      else if str_eq type "join_room"
      then (join_room_from_json content >>= λ room_id. some (join_room room_id))
      else if str_eq type "leave_room"
      then some leave_room
      else if str_eq type "list_rooms"
      then some list_rooms
      else if str_eq type "start_game"
      then some start_game
      else if str_eq type "player_action"
      then (player_action_from_json content >>= λ msg. some (player_action msg))
      else none

  -- Without data every type is refused, one that is not known as well.
  unfoldable pub client_from_json : Json → Option ClientMessage
  unfolding client_from_data
  client_from_json j = do
    type ← at "type" j >>= get_string
    content ← at "data" j
    client_from_data type content
