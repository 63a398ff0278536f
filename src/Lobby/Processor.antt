-- ===== src/Lobby/Processor.antt =====
-- server/src/messaging/lobby_message_processor.cpp: what a message of an authenticated connection does.
-- `find` is what the repository answers while the message is handled.
use Prim.Native.String.{String}
use ascii_poker.Prelude.{ℕ, List, ◌∷◌, true, false, Option, none, some, ltb, if◌then◌else◌}
use ascii_poker.Card.{Card}
use ascii_poker.Protocol.{
  ErrorCode, invalid_max_players, not_in_room, ClientMessage, ServerMessage, LeftRoom, room_list,
  left_room, error_reply, login, list_rooms, player_action,
}
use ascii_poker.Protocol
use ascii_poker.GameSession.State.{Outcome, returns, ◌>>=◌, send_message}
use ascii_poker.Room.{on_player_action}
use ascii_poker.Lobby.{
  Lobby, in_lobby, keep_room, get_room_list, find_room_by_player, check_player_bankroll,
  account_chips_for, leave_room, create_room, join_room, start_game,
}

-- `connection->send`.
unfoldable pub send : ℕ → ServerMessage → Lobby → Lobby
send c msg l = record l { effects = send_message c msg ∷ l.effects }

-- The error that a call answers, if any, is sent.
unfoldable pub send_error : ℕ → Option ErrorCode → Lobby → Lobby
unfolding send
send_error c none l = l
send_error c (some error) l = send c (error_reply error) l

unfoldable pub left_room_message : ℕ → Option ℕ → LeftRoom
left_room_message room_id none = record {
  room_id = room_id;
  your_chips = 0;
  has_your_chips = false;
}
left_room_message room_id (some chips) = record {
  room_id = room_id;
  your_chips = chips;
  has_your_chips = true;
}

module _ (name_of : ℕ → String) (find : String → Option ℕ) (shuffle : ℕ → List Card → List Card)
    (fuel : ℕ) where
  -- A room is made, or the error is sent; the room that `create_room` answers is not used.
  unfoldable pub process_create_room : ℕ → String → ℕ → Lobby → Outcome Lobby
  unfolding send_error check_player_bankroll create_room
  process_create_room c name max_players l =
      if ltb max_players 2
      then returns (send c (error_reply invalid_max_players) l)
      else elim (check_player_bankroll name_of find c l) [
        | some error ↦ returns (send c (error_reply error) l)
        | none ↦
            create_room name_of find shuffle fuel name max_players c l >>= λ (l', room). returns l'
      ]

  unfoldable pub process_leave_room : ℕ → Lobby → Outcome Lobby
  unfolding send left_room_message find_room_by_player leave_room account_chips_for
  process_leave_room c l =
      let room_id : ℕ = elim (find_room_by_player c l) [ none ↦ 0 | some room ↦ room.id ] in
      leave_room name_of find shuffle fuel c l >>= λ l'. returns (
        send c
          (left_room (left_room_message room_id (account_chips_for name_of find (name_of c) l')))
          l')

  unfoldable pub process_player_action : ℕ → Protocol.PlayerAction → Lobby → Outcome Lobby
  unfolding send find_room_by_player on_player_action keep_room
  process_player_action c msg l = elim (find_room_by_player c l) [
    | some room ↦
        on_player_action shuffle fuel c msg.action msg.amount (in_lobby l room) >>= λ room'.
        returns (keep_room l room')
    | none ↦ returns (send c (error_reply not_in_room) l)
  ]

  -- A login is no message of the lobby, and does nothing.
  unfoldable pub process_client_message : ℕ → ClientMessage → Lobby → Outcome Lobby
  unfolding process_create_room process_leave_room process_player_action send_error join_room
      start_game get_room_list
  process_client_message c (login msg) l = returns l
  process_client_message c (Protocol.create_room msg) l =
      process_create_room c msg.room_name msg.max_players l
  process_client_message c (Protocol.join_room room_id) l =
      join_room name_of find shuffle fuel room_id c l >>= λ (l', error).
      returns (send_error c error l')
  process_client_message c Protocol.leave_room l = process_leave_room c l
  process_client_message c list_rooms l = returns (send c (room_list (get_room_list l)) l)
  process_client_message c Protocol.start_game l =
      start_game name_of find shuffle fuel c l >>= λ (l', error). returns (send_error c error l')
  process_client_message c (player_action msg) l = process_player_action c msg l

  unfoldable pub on_disconnect : ℕ → Lobby → Outcome Lobby
  unfolding leave_room
  on_disconnect c l = leave_room name_of find shuffle fuel c l
