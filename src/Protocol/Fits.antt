-- ===== src/Protocol/Fits.antt =====
-- The messages whose numbers fit the integer types of common/include/poker/protocol.h.
use ascii_poker.Prelude.{ℕ, ◌<◌, ◌^◌, Option, none, some, All}
use ascii_poker.Protocol.{
  ClientMessage, login, create_room, join_room, leave_room, list_rooms, start_game, player_action,
  RoomInfo, PlayerState, YourTurn, ServerMessage, welcome, room_list, joined_room,
  game_state_update, your_turn, error, left_room, hand_result, action_event,
}

-- An amount of chips, if there is one, of 32 bits.
unfoldable pub AmountFits : Option ℕ → Type 0
AmountFits none = Unit
AmountFits (some n) = n < 2 ^ 32

unfoldable pub ClientFits : ClientMessage → Type 0
unfolding AmountFits
ClientFits (login msg) = Unit
ClientFits (create_room msg) = msg.max_players < 2 ^ 8
ClientFits (join_room room_id) = room_id < 2 ^ 64
ClientFits leave_room = Unit
ClientFits list_rooms = Unit
ClientFits start_game = Unit
ClientFits (player_action msg) = AmountFits msg.amount

unfoldable pub RoomFits : RoomInfo → Type 0
RoomFits room =
    (room.room_id < 2 ^ 64) × (room.current_players < 2 ^ 8) × (room.max_players < 2 ^ 8)

unfoldable pub PlayerFits : PlayerState → Type 0
PlayerFits player = (player.chips < 2 ^ 32) × (player.round_bet < 2 ^ 32)

unfoldable pub TurnFits : YourTurn → Type 0
TurnFits msg =
    (msg.min_amount < 2 ^ 32)
    × (msg.max_amount < 2 ^ 32)
    × (msg.to_call < 2 ^ 32)
    × (msg.your_chips < 2 ^ 32)

unfoldable pub ServerFits : ServerMessage → Type 0
unfolding AmountFits RoomFits PlayerFits TurnFits
ServerFits (welcome msg) = msg.chips < 2 ^ 32
ServerFits (room_list rooms) = All RoomFits rooms
ServerFits (joined_room msg) = (msg.room_id < 2 ^ 64) × (msg.max_players < 2 ^ 8)
ServerFits (game_state_update msg) =
    (msg.total_pot < 2 ^ 32) × (msg.current_bet < 2 ^ 32) × All PlayerFits msg.players
ServerFits (your_turn msg) = TurnFits msg
ServerFits (error msg) = msg.code < 2 ^ 32
ServerFits (left_room msg) = (msg.room_id < 2 ^ 64) × (msg.your_chips < 2 ^ 32)
ServerFits (hand_result msg) = msg.pot_amount < 2 ^ 32
ServerFits (action_event msg) = AmountFits msg.amount
