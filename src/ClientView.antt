-- ===== src/ClientView.antt =====
-- client/include/client_view_state.h and client/src/client_view_state.cpp: what the client shows. The
-- texts, which depend on the language chosen, are the parameter `Texts`.
pub mod Messages
pub mod Log
pub mod Screens
mod Tests
use Prim.Native.String.{String, ◌++◌ as ◌++ˢ◌}
use text.Mathlib.Text.{◌==◌ as str_eq}
use ascii_poker.Prelude.{
  ℕ, suc, Bool, true, false, not, ◌&&◌, ◌||◌, List, [], ◌∷◌, ◌++◌, Option, none, some, length, ltb,
  if◌then◌else◌,
}
use ascii_poker.Card.{Card}
use ascii_poker.Protocol.{
  Action, fold, check, call, raise, GamePhase, RoomInfo, Welcome, JoinedRoom, PlayerState,
  GameStateUpdate, YourTurn, HandResult, ActionEvent, LeftRoom, Error, ServerMessage, welcome,
  room_list, joined_room, game_state_update, your_turn, error, left_room, hand_result, action_event,
}

pub data UiScreen : Type 0 where
  login lobby waiting_room in_game disconnected : UiScreen

-- `lost` is `ConnectionStatus::Disconnected`.
pub data ConnectionStatus : Type 0 where
  connecting connected failed lost : ConnectionStatus

-- The messages of client/include/i18n.h that are used here.
pub data Msg : Type 0 where
  connected_to connecting_to could_not_connect connection_lost_short : Msg
  welcome_new_account welcome_user room_list_updated table_roster_updated phase_prefix
        to_act_suffix :
      Msg
  joined_room_log you_are_host waiting_for_host_start your_turn_msg hand_won_by left_room_log
        in_lobby :
      Msg
  error_prefix : Msg

-- `tr`, `tr_phase`, `tr_auth_error`, `format_action_event`, `describe_hand` and `std::to_string`.
pub record Texts : Type 0 where
  pub tr : Msg → List String → String
  pub tr_phase : GamePhase → String
  pub tr_auth_error : ℕ → String
  pub format_action_event : ActionEvent → String
  pub describe_hand : List Card → List Card → String
  pub to_string : ℕ → String

pub record ClientViewState : Type 0 where
  pub screen : UiScreen
  pub connection : ConnectionStatus
  pub player_name : String
  pub chips : ℕ
  pub server_host : String
  pub server_port : String
  pub rooms : List RoomInfo
  pub room_id : Option ℕ
  pub player_names : List String
  pub room_host_name : String
  pub room_max_players : ℕ
  pub is_room_host : Bool
  pub game_state : Option GameStateUpdate
  pub your_turn : Option YourTurn
  pub last_hand_result : Option HandResult
  pub log : List String
  pub status_message : String

abbrev pub new_view : ClientViewState
new_view = record {
  screen = login;
  connection = connecting;
  player_name = "";
  chips = 0;
  server_host = "";
  server_port = "";
  rooms = [];
  room_id = none;
  player_names = [];
  room_host_name = "";
  room_max_players = 0;
  is_room_host = false;
  game_state = none;
  your_turn = none;
  last_hand_result = none;
  log = [];
  status_message = "";
}

abbrev pub max_log_lines : ℕ
max_log_lines = 200

-- The `while` loop of `append_log`.
unfoldable pub pop_lines : List String → List String
pop_lines [] = []
pop_lines (line ∷ lines) =
    let rest = pop_lines lines in
    if ltb max_log_lines (suc (length lines)) then rest else line ∷ lines

unfoldable pub append_log : String → ClientViewState → ClientViewState
unfolding pop_lines
append_log message s = record s { log = pop_lines (s.log ++ (message ∷ [])) }

unfoldable pub reset_play_session : ClientViewState → ClientViewState
reset_play_session s = record s {
  room_id = none;
  player_names = [];
  room_host_name = "";
  room_max_players = 0;
  is_room_host = false;
  game_state = none;
  your_turn = none;
  last_hand_result = none;
}

abbrev same_action : Action → Action → Bool
same_action fold fold = true
same_action check check = true
same_action call call = true
same_action raise raise = true
same_action _ _ = false

abbrev has_among : Action → List Action → Bool
has_among action [] = false
has_among action (a ∷ actions) = same_action a action || has_among action actions

unfoldable pub has_action : Action → ClientViewState → Bool
has_action action s = elim s.your_turn [
  | none ↦ false
  | some t ↦ has_among action t.available_actions
]

-- The loop that finds the player's own chips.
unfoldable pub own_chips : String → List PlayerState → ℕ → ℕ
own_chips name [] chips = chips
own_chips name (p ∷ ps) chips =
    let rest = own_chips name ps chips in if str_eq p.name name then p.chips else rest

-- The names with `, ` between them, and the names with a space before each.
unfoldable pub join_names : List String → String
join_names [] = ""
join_names (n ∷ []) = n
join_names (n ∷ m ∷ names) = n ++ˢ (", " ++ˢ join_names (m ∷ names))

unfoldable pub spaced_names : List String → String
spaced_names [] = ""
spaced_names (n ∷ names) = " " ++ˢ (n ++ˢ spaced_names names)

module _ (texts : Texts) where
  open texts use {tr, tr_phase, tr_auth_error, format_action_event, describe_hand, to_string}

  unfoldable pub set_connection : ConnectionStatus → ClientViewState → ClientViewState
  unfolding reset_play_session
  set_connection status s =
      let endpoint = s.server_host ++ˢ (":" ++ˢ s.server_port) in
      let s' = record s { connection = status } in
      elim status [
        | connected ↦ record s' { status_message = tr connected_to (endpoint ∷ []) }
        | connecting ↦ record s' { status_message = tr connecting_to (endpoint ∷ []) }
        | failed ↦ record s' {
          status_message = tr could_not_connect (endpoint ∷ []);
          screen = login;
        }
        | lost ↦ reset_play_session (record s' {
          status_message = tr connection_lost_short [];
          screen = disconnected;
          your_turn = none;
        })
      ]

  unfoldable pub hand_hint : ClientViewState → String
  hand_hint s = elim s.game_state [
    | none ↦ ""
    | some g ↦ describe_hand g.your_cards g.general_cards
  ]

  -- The phase, and who is to act.
  unfoldable pub phase_status : GameStateUpdate → String
  phase_status g =
      let phase = tr phase_prefix (tr_phase g.phase ∷ []) in
      if str_eq g.active_player_name ""
      then phase
      else phase ++ˢ (" — " ++ˢ tr to_act_suffix (g.active_player_name ∷ []))
