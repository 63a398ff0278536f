-- ===== src/Protocol.antt =====
-- common/include/poker/protocol.h and error_codes.h: the messages between client and server.
pub mod Json
pub mod Words
pub mod Client
pub mod Rooms
pub mod Table
pub mod Server
pub mod Fits
pub mod RoundTrip
pub mod Accepted
pub mod CardText
pub mod Tests
use Prim.Native.String.{String}
use Prim.Native.String.{◌++◌}
use text.Mathlib.Text.{◌==◌}
use ascii_poker.Prelude.{ℕ, Bool, List, Option, if◌then◌else◌}
use ascii_poker.Card.{Card}

pub data Action : Type 0 where
  fold check call raise : Action

pub data GamePhase : Type 0 where
  pre_flop flop turn river showdown : GamePhase

pub data ErrorCode : Type 0 where
  invalid_json invalid_message join_failed not_in_room not_your_turn cannot_check invalid_raise :
      ErrorCode
  not_enough_chips invalid_max_players name_taken invalid_player_name not_authenticated : ErrorCode
  room_full not_room_host not_enough_players game_already_started wrong_password : ErrorCode
  already_online invalid_password : ErrorCode

pub record Login : Type 0 where
  pub username : String
  pub password : String

pub record CreateRoom : Type 0 where
  pub room_name : String
  pub max_players : ℕ

pub record PlayerAction : Type 0 where
  pub action : Action
  pub amount : Option ℕ

pub data ClientMessage : Type 0 where
  login : Login → ClientMessage
  create_room : CreateRoom → ClientMessage
  join_room : ℕ → ClientMessage
  leave_room list_rooms start_game : ClientMessage
  player_action : PlayerAction → ClientMessage

pub record Welcome : Type 0 where
  pub player_name : String
  pub chips : ℕ
  pub is_new_account : Bool

pub record RoomInfo : Type 0 where
  pub room_id : ℕ
  pub room_name : String
  pub current_players : ℕ
  pub max_players : ℕ
  pub in_game : Bool

pub record JoinedRoom : Type 0 where
  pub room_id : ℕ
  pub player_names : List String
  pub host_name : String
  pub max_players : ℕ
  pub in_game : Bool

pub record PlayerState : Type 0 where
  pub name : String
  pub chips : ℕ
  pub round_bet : ℕ
  pub folded : Bool
  pub all_in : Bool
  pub is_dealer : Bool
  pub is_small_blind : Bool
  pub is_big_blind : Bool
  pub hole_cards : List Card

pub record GameStateUpdate : Type 0 where
  pub general_cards : List Card
  pub your_cards : List Card
  pub phase : GamePhase
  pub active_player_name : String
  pub total_pot : ℕ
  pub current_bet : ℕ
  pub players : List PlayerState

pub record YourTurn : Type 0 where
  pub available_actions : List Action
  pub min_amount : ℕ
  pub max_amount : ℕ
  pub to_call : ℕ
  pub your_chips : ℕ

pub record ActionEvent : Type 0 where
  pub player_name : String
  pub action : Action
  pub amount : Option ℕ

pub record Error : Type 0 where
  pub code : ℕ
  pub description : String

pub record LeftRoom : Type 0 where
  pub room_id : ℕ
  pub your_chips : ℕ
  pub has_your_chips : Bool

pub record HandResult : Type 0 where
  pub winner_names : List String
  pub pot_amount : ℕ
  pub winner_hand_labels : List String

pub data ServerMessage : Type 0 where
  welcome : Welcome → ServerMessage
  room_list : List RoomInfo → ServerMessage
  joined_room : JoinedRoom → ServerMessage
  game_state_update : GameStateUpdate → ServerMessage
  your_turn : YourTurn → ServerMessage
  error : Error → ServerMessage
  left_room : LeftRoom → ServerMessage
  hand_result : HandResult → ServerMessage
  action_event : ActionEvent → ServerMessage

-- The number of an error code.
abbrev pub error_number : ErrorCode → ℕ
error_number invalid_json = 1
error_number invalid_message = 2
error_number join_failed = 3
error_number not_in_room = 4
error_number not_your_turn = 5
error_number cannot_check = 6
error_number invalid_raise = 7
error_number not_enough_chips = 8
error_number invalid_max_players = 9
error_number name_taken = 10
error_number invalid_player_name = 11
error_number not_authenticated = 12
error_number room_full = 13
error_number not_room_host = 14
error_number not_enough_players = 15
error_number game_already_started = 16
error_number wrong_password = 17
error_number already_online = 18
error_number invalid_password = 19

unfoldable pub error_code_message : ErrorCode → String
error_code_message invalid_json = "Invalid JSON"
error_code_message invalid_message = "Invalid message"
error_code_message join_failed = "Join to room failed"
error_code_message not_in_room = "Not in a room"
error_code_message not_your_turn = "Not your turn"
error_code_message cannot_check = "Cannot check – there is a bet"
error_code_message invalid_raise = "Invalid raise amount"
error_code_message not_enough_chips = "Not enough chips"
error_code_message invalid_max_players = "max_players must be at least 2"
error_code_message name_taken = "Player name is already taken"
error_code_message invalid_player_name = "Invalid player name"
error_code_message not_authenticated = "Send login with username and password first"
error_code_message room_full = "Room is full"
error_code_message not_room_host = "Only the room host can start the game"
error_code_message not_enough_players = "At least 2 players are required to start"
error_code_message game_already_started = "Game has already started"
error_code_message wrong_password = "Wrong password"
error_code_message already_online = "Account is already online"
error_code_message invalid_password = "Invalid password (4-128 chars, letter and digit required)"

unfoldable pub make_error : ErrorCode → String → Error
unfolding error_code_message
make_error code detail =
    let description = error_code_message code in
    record {
      code = error_number code;
      description = if detail == "" then description else description ++ (": " ++ detail);
    }

-- A server message with `make_error(code)`, whose detail is empty by default.
unfoldable pub error_reply : ErrorCode → ServerMessage
unfolding make_error
error_reply code = error (make_error code "")
