-- ===== src/ClientView/Messages.antt =====
-- `apply_message` of client/src/client_view_state.cpp: what a message of the server changes.
use Prim.Native.String.{String}
use text.Mathlib.Text.{◌==◌ as str_eq}
use ascii_poker.Prelude.{
  Bool, true, false, not, ◌&&◌, List, [], ◌∷◌, none, some, length, if◌then◌else◌,
}
use ascii_poker.Protocol.{
  RoomInfo, Welcome, JoinedRoom, GameStateUpdate, YourTurn, HandResult, LeftRoom, Error,
  ServerMessage, welcome, room_list, joined_room, game_state_update, your_turn, error, left_room,
  hand_result, action_event,
}
use ascii_poker.ClientView.{
  UiScreen, login, lobby, waiting_room, in_game, welcome_new_account, welcome_user,
  room_list_updated, table_roster_updated, joined_room_log, you_are_host, waiting_for_host_start,
  your_turn_msg, hand_won_by, left_room_log, in_lobby, error_prefix, Texts, ClientViewState,
  append_log, reset_play_session, own_chips, join_names, spaced_names, phase_status,
}

abbrev pub is_in_game : UiScreen → Bool
is_in_game in_game = true
is_in_game _ = false

abbrev is_login : UiScreen → Bool
is_login login = true
is_login _ = false

-- The room and its members.
abbrev pub keep_roster : JoinedRoom → ClientViewState → ClientViewState
keep_roster msg s = record s {
  room_id = some msg.room_id;
  player_names = msg.player_names;
  room_host_name = msg.host_name;
  room_max_players = msg.max_players;
  is_room_host = not (str_eq s.player_name "") && str_eq s.player_name msg.host_name;
}

module _ (texts : Texts) where
  open texts use {tr, tr_auth_error, format_action_event, to_string}

  -- A line of the log that is the status as well.
  abbrev announce : String → ClientViewState → ClientViewState
  announce message s = record (append_log message s) { status_message = message }

  unfoldable pub apply_welcome : Welcome → ClientViewState → ClientViewState
  unfolding append_log
  apply_welcome msg s =
      announce
        (tr (if msg.is_new_account then welcome_new_account else welcome_user)
          (msg.player_name ∷ to_string msg.chips ∷ []))
        (record s { player_name = msg.player_name; chips = msg.chips; screen = lobby })

  unfoldable pub apply_room_list : List RoomInfo → ClientViewState → ClientViewState
  unfolding append_log
  apply_room_list rooms s =
      append_log (tr room_list_updated (to_string (length rooms) ∷ [])) (record s { rooms = rooms })

  -- The roster of a game that is on.
  unfoldable pub apply_roster : ClientViewState → ClientViewState
  unfolding append_log phase_status
  apply_roster s =
      let logged = append_log (tr table_roster_updated []) s in
      elim s.game_state [
        | none ↦ logged
        | some g ↦ record logged { status_message = phase_status texts g }
      ]

  -- A room where the game has not begun.
  unfoldable pub apply_waiting : JoinedRoom → ClientViewState → ClientViewState
  unfolding append_log join_names
  apply_waiting msg s =
      let entered = record s {
        game_state = none;
        your_turn = none;
        last_hand_result = none;
        screen = waiting_room;
      } in
      record (append_log
        (tr joined_room_log (to_string msg.room_id ∷ join_names s.player_names ∷ [])) entered) {
          status_message =
              if s.is_room_host
              then tr you_are_host []
              else tr waiting_for_host_start (msg.host_name ∷ []);
        }

  unfoldable pub apply_joined_room : JoinedRoom → ClientViewState → ClientViewState
  unfolding apply_roster apply_waiting
  apply_joined_room msg s =
      let s' = keep_roster msg s in
      if msg.in_game && is_in_game s.screen then apply_roster s' else apply_waiting msg s'

  unfoldable pub apply_game_state_update : GameStateUpdate → ClientViewState → ClientViewState
  unfolding own_chips phase_status
  apply_game_state_update msg s = record s {
    last_hand_result = none;
    game_state = some msg;
    screen = in_game;
    chips = own_chips s.player_name msg.players s.chips;
    status_message = phase_status texts msg;
  }

  unfoldable pub apply_your_turn : YourTurn → ClientViewState → ClientViewState
  apply_your_turn msg s = record s {
    your_turn = some msg;
    chips = msg.your_chips;
    screen = in_game;
    status_message = tr your_turn_msg [];
  }

  unfoldable pub apply_hand_result : HandResult → ClientViewState → ClientViewState
  unfolding append_log spaced_names
  apply_hand_result msg s =
      announce (tr hand_won_by (spaced_names msg.winner_names ∷ to_string msg.pot_amount ∷ []))
        (record s { last_hand_result = some msg })

  unfoldable pub apply_left_room : LeftRoom → ClientViewState → ClientViewState
  unfolding append_log reset_play_session
  apply_left_room msg s =
      let left = record (reset_play_session s) {
        screen = lobby;
        chips = if msg.has_your_chips then msg.your_chips else s.chips;
      } in
      record (append_log (tr left_room_log (to_string msg.room_id ∷ [])) left) {
        status_message = tr in_lobby [];
      }

  unfoldable pub apply_error : Error → ClientViewState → ClientViewState
  unfolding append_log
  apply_error msg s =
      announce
        (if is_login s.screen
          then tr_auth_error msg.code
          else tr error_prefix (msg.description ∷ []))
        s

  unfoldable pub apply_message : ServerMessage → ClientViewState → ClientViewState
  unfolding append_log apply_welcome apply_room_list apply_joined_room apply_game_state_update
      apply_your_turn apply_hand_result apply_left_room apply_error
  apply_message (welcome msg) s = apply_welcome msg s
  apply_message (room_list rooms) s = apply_room_list rooms s
  apply_message (joined_room msg) s = apply_joined_room msg s
  apply_message (game_state_update msg) s = apply_game_state_update msg s
  apply_message (your_turn msg) s = apply_your_turn msg s
  apply_message (hand_result msg) s = apply_hand_result msg s
  apply_message (action_event msg) s = append_log (format_action_event msg) s
  apply_message (left_room msg) s = apply_left_room msg s
  apply_message (error msg) s = apply_error msg s
