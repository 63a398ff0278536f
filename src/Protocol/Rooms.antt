-- ===== src/Protocol/Rooms.antt =====
-- The JSON form of the server's messages about accounts and rooms: common/src/protocol.cpp.
use ascii_poker.Prelude.{false, List, [], ◌∷◌, map, Option, some}
use ascii_poker.Protocol.{Welcome, RoomInfo, JoinedRoom, Error, LeftRoom}
use ascii_poker.Protocol.Json.{JsonLibrary, ◌>>=◌, field_or, get_vector}

module _ (library : JsonLibrary) where
  open library use {
    Json, object, array, string, number, boolean, null, at, set_key, get_string, get_word, get_bool,
  }

  unfoldable pub welcome_to_json : Welcome → Json
  welcome_to_json msg = object (
      ("player_name", string msg.player_name)
      ∷ ("chips", number msg.chips)
      ∷ ("is_new_account", boolean msg.is_new_account)
      ∷ [])

  unfoldable pub welcome_from_json : Json → Option Welcome
  welcome_from_json j = do
    player_name ← at "player_name" j >>= get_string
    chips ← field_or library "chips" (get_word 32) 0 j
    is_new_account ← field_or library "is_new_account" get_bool false j
    some (record { player_name = player_name; chips = chips; is_new_account = is_new_account })

  unfoldable pub room_info_to_json : RoomInfo → Json
  room_info_to_json msg = object (
      ("room_id", number msg.room_id)
      ∷ ("room_name", string msg.room_name)
      ∷ ("current_players", number msg.current_players)
      ∷ ("max_players", number msg.max_players)
      ∷ ("in_game", boolean msg.in_game)
      ∷ [])

  unfoldable pub room_info_from_json : Json → Option RoomInfo
  room_info_from_json j = do
    room_id ← at "room_id" j >>= get_word 64
    room_name ← at "room_name" j >>= get_string
    current_players ← at "current_players" j >>= get_word 8
    max_players ← at "max_players" j >>= get_word 8
    in_game ← field_or library "in_game" get_bool false j
    some (record {
      room_id = room_id;
      room_name = room_name;
      current_players = current_players;
      max_players = max_players;
      in_game = in_game;
    })

  unfoldable pub room_list_to_json : List RoomInfo → Json
  unfolding room_info_to_json
  room_list_to_json rooms = object (("rooms", array (map room_info_to_json rooms)) ∷ [])

  unfoldable pub room_list_from_json : Json → Option (List RoomInfo)
  unfolding room_info_from_json
  room_list_from_json j = at "rooms" j >>= get_vector library room_info_from_json

  unfoldable pub joined_room_to_json : JoinedRoom → Json
  joined_room_to_json msg = object (
      ("room_id", number msg.room_id)
      ∷ ("player_names", array (map string msg.player_names))
      ∷ ("host_name", string msg.host_name)
      ∷ ("max_players", number msg.max_players)
      ∷ ("in_game", boolean msg.in_game)
      ∷ [])

  unfoldable pub joined_room_from_json : Json → Option JoinedRoom
  joined_room_from_json j = do
    room_id ← at "room_id" j >>= get_word 64
    player_names ← at "player_names" j >>= get_vector library get_string
    host_name ← at "host_name" j >>= get_string
    max_players ← at "max_players" j >>= get_word 8
    in_game ← field_or library "in_game" get_bool false j
    some (record {
      room_id = room_id;
      player_names = player_names;
      host_name = host_name;
      max_players = max_players;
      in_game = in_game;
    })

  -- A code is an `int`, taken as its 32 bits.
  unfoldable pub error_to_json : Error → Json
  error_to_json msg =
      object (("code", number msg.code) ∷ ("description", string msg.description) ∷ [])

  unfoldable pub error_from_json : Json → Option Error
  error_from_json j = do
    code ← at "code" j >>= get_word 32
    description ← at "description" j >>= get_string
    some (record { code = code; description = description })

  unfoldable pub left_room_to_json : LeftRoom → Json
  left_room_to_json msg = object (
      ("room_id", number msg.room_id)
      ∷ ("your_chips", number msg.your_chips)
      ∷ ("has_your_chips", boolean msg.has_your_chips)
      ∷ [])

  unfoldable pub left_room_from_json : Json → Option LeftRoom
  left_room_from_json j = do
    room_id ← at "room_id" j >>= get_word 64
    your_chips ← field_or library "your_chips" (get_word 32) 0 j
    has_your_chips ← field_or library "has_your_chips" get_bool false j
    some (record { room_id = room_id; your_chips = your_chips; has_your_chips = has_your_chips })
