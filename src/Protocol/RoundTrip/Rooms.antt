-- ===== src/Protocol/RoundTrip/Rooms.antt =====
-- The messages about accounts and rooms, read back: common/src/protocol.cpp.
use native.Mathlib.Nat.{mod-eq_of_lt}
use ascii_poker.Prelude.{◌<◌, ◌^◌, ◌≡◌, some, List, All}
use ascii_poker.Protocol.{RoomInfo, Welcome, JoinedRoom, Error, LeftRoom}
use ascii_poker.Protocol.Json.{JsonLibrary, read_all-map, get_vector, field_or}
use ascii_poker.Protocol.Fits.{RoomFits}
use ascii_poker.Protocol.Rooms.{
  welcome_to_json, welcome_from_json, room_info_to_json, room_info_from_json, room_list_to_json,
  room_list_from_json, joined_room_to_json, joined_room_from_json, error_to_json, error_from_json,
  left_room_to_json, left_room_from_json,
}
use ascii_poker.Protocol.RoundTrip.Words.{strings_round}

module _ (library : JsonLibrary) where
  open library use {
    Json, at, string, null, set_key, at-object, set_key-object, set_key-null, get_string-string,
    get_word-number, get_bool-boolean, get_items-array,
  }

  pub welcome_round :
      (m : Welcome)
      → m.chips < 2 ^ 32
      → welcome_from_json library (welcome_to_json library m) ≡ some m
  unfolding welcome_from_json welcome_to_json
  welcome_round m h =
      simp (get_string-string, get_word-number, get_bool-boolean, at-object, field_or, mod-eq_of_lt)

  pub room_info_round :
      (m : RoomInfo)
      → RoomFits m
      → room_info_from_json library (room_info_to_json library m) ≡ some m
  unfolding room_info_from_json room_info_to_json RoomFits
  room_info_round m h = simp (
    get_string-string,
    get_word-number,
    get_bool-boolean,
    at-object,
    field_or,
    mod-eq_of_lt h.0,
    mod-eq_of_lt h.1,
    mod-eq_of_lt h.2,
  )

  pub room_list_round :
      (m : List RoomInfo)
      → All RoomFits m
      → room_list_from_json library (room_list_to_json library m) ≡ some m
  unfolding room_list_from_json room_list_to_json
  room_list_round m h = simp (
    at-object,
    get_vector,
    get_items-array,
    read_all-map RoomFits (room_info_from_json library) (room_info_to_json library) room_info_round
        m h,
  )

  pub joined_room_round :
      (m : JoinedRoom)
      → (m.room_id < 2 ^ 64) × (m.max_players < 2 ^ 8)
      → joined_room_from_json library (joined_room_to_json library m) ≡ some m
  unfolding joined_room_from_json joined_room_to_json
  joined_room_round m h = simp (
    get_string-string,
    get_word-number,
    get_bool-boolean,
    at-object,
    field_or,
    strings_round library,
    mod-eq_of_lt h.0,
    mod-eq_of_lt h.1,
  )

  pub error_round :
      (m : Error) → m.code < 2 ^ 32 → error_from_json library (error_to_json library m) ≡ some m
  unfolding error_from_json error_to_json
  error_round m h = simp (get_string-string, get_word-number, at-object, field_or, mod-eq_of_lt)

  pub left_room_round :
      (m : LeftRoom)
      → (m.room_id < 2 ^ 64) × (m.your_chips < 2 ^ 32)
      → left_room_from_json library (left_room_to_json library m) ≡ some m
  unfolding left_room_from_json left_room_to_json
  left_room_round m h =
      simp
        (get_word-number, get_bool-boolean, at-object, field_or, mod-eq_of_lt h.0, mod-eq_of_lt h.1)
