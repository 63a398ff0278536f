-- ===== src/ClientView/Screens.antt =====
-- The screens of the client: `apply_message` and `set_connection` one after another.
use ascii_poker.Prelude.{
  ℕ, ◌≡◌, ◌≢◌, refl, Bool, true, ◌&&◌, List, [], ◌∷◌, Option, none, some, Option-cases,
  if_elim_known, inl, inr, arith,
}
use ascii_poker.Protocol.{
  JoinedRoom, GameStateUpdate, YourTurn, ServerMessage, welcome, room_list, joined_room,
  game_state_update, your_turn, error, left_room, hand_result, action_event,
}
use ascii_poker.ClientView.{
  UiScreen, login, lobby, waiting_room, in_game, disconnected, ClientViewState, Texts, append_log,
  reset_play_session, set_connection, ConnectionStatus, connecting, connected, failed, lost,
}
use ascii_poker.ClientView.Messages.{
  keep_roster, apply_message, apply_welcome, apply_room_list, apply_roster, apply_waiting,
  apply_joined_room, apply_game_state_update, apply_your_turn, apply_hand_result, apply_left_room,
  apply_error, is_in_game,
}

-- Who waits is in a room, with no game and no turn; who has lost the connection is in no room, game, or
-- turn.
abbrev pub IsScreen : UiScreen → Option ℕ → Option GameStateUpdate → Option YourTurn → Type 0
IsScreen waiting_room room game turn = (room ≢ none) × (game ≡ none) × (turn ≡ none)
IsScreen disconnected room game turn = (room ≡ none) × (game ≡ none) × (turn ≡ none)
IsScreen _ room game turn = Unit

abbrev pub IsView : ClientViewState → Type 0
IsView s = IsScreen s.screen s.room_id s.game_state s.your_turn

in_game_IsScreen :
    (screen : UiScreen) (room : Option ℕ) (game : Option GameStateUpdate) (turn : Option YourTurn)
    → is_in_game screen ≡ true
    → IsScreen screen room game turn
in_game_IsScreen in_game room game turn h = tt
in_game_IsScreen login room game turn h = tt
in_game_IsScreen lobby room game turn h = tt
in_game_IsScreen waiting_room room game turn h = absurd (ground arith)
in_game_IsScreen disconnected room game turn h = absurd (ground arith)

some_room : (id : ℕ) → some id ≢ none
some_room id e = ground arith

and_right : (a b : Bool) → a && b ≡ true → b ≡ true
and_right a b h = ground arith

-- A message of the server, or a change of the connection.
pub data Input : Type 0 where
  received : ServerMessage → Input
  changed : ConnectionStatus → Input

module _ (texts : Texts) where
  unfoldable pub apply_inputs : List Input → ClientViewState → ClientViewState
  unfolding apply_message set_connection
  apply_inputs [] s = s
  apply_inputs (received msg ∷ inputs) s = apply_inputs inputs (apply_message texts msg s)
  apply_inputs (changed status ∷ inputs) s = apply_inputs inputs (set_connection texts status s)

  -- A roster of a game that is on changes neither the screen nor the game.
  apply_roster-IsView :
      (s : ClientViewState) → is_in_game s.screen ≡ true → IsView (apply_roster texts s)
  unfolding apply_roster append_log
  apply_roster-IsView s playing = elim (Option-cases s.game_state) [
    | inl e ↦
        rw (e, apply_roster) (in_game_IsScreen s.screen s.room_id s.game_state s.your_turn playing)
    | inr (g, e) ↦
        rw (e, apply_roster) (in_game_IsScreen s.screen s.room_id s.game_state s.your_turn playing)
  ]

  apply_joined_room-IsView :
      (msg : JoinedRoom) (s : ClientViewState) → IsView s → IsView (apply_joined_room texts msg s)
  unfolding apply_joined_room apply_waiting append_log
  apply_joined_room-IsView msg s h =
      if_elim_known IsView (msg.in_game && is_in_game s.screen)
        (apply_roster texts (keep_roster msg s)) (apply_waiting texts msg (keep_roster msg s))
        (λ e.
          apply_roster-IsView (keep_roster msg s) (and_right msg.in_game (is_in_game s.screen) e))
        (λ e. (some_room msg.room_id, refl, refl))

  apply_message-IsView :
      (msg : ServerMessage) (s : ClientViewState) → IsView s → IsView (apply_message texts msg s)
  unfolding apply_message append_log reset_play_session apply_welcome apply_room_list
      apply_game_state_update apply_your_turn apply_hand_result apply_left_room apply_error
  apply_message-IsView (welcome msg) s h = tt
  apply_message-IsView (room_list rooms) s h = h
  apply_message-IsView (joined_room msg) s h = apply_joined_room-IsView msg s h
  apply_message-IsView (game_state_update msg) s h = tt
  apply_message-IsView (your_turn msg) s h = tt
  apply_message-IsView (hand_result msg) s h = h
  apply_message-IsView (action_event msg) s h = h
  apply_message-IsView (left_room msg) s h = tt
  apply_message-IsView (error msg) s h = h

  set_connection-IsView :
      (status : ConnectionStatus) (s : ClientViewState)
      → IsView s
      → IsView (set_connection texts status s)
  unfolding set_connection reset_play_session
  set_connection-IsView connecting s h = h
  set_connection-IsView connected s h = h
  set_connection-IsView failed s h = tt
  set_connection-IsView lost s h = (refl, refl, refl)

  -- After any messages of the server and changes of the connection, in any order: on the waiting screen
  -- the client is in a room and has no game and no turn, and on the screen of a lost connection it has
  -- no room, no game and no turn, if that held before them.
  pub apply_inputs-IsView :
      (inputs : List Input) (s : ClientViewState) → IsView s → IsView (apply_inputs inputs s)
  unfolding apply_inputs
  apply_inputs-IsView [] s h = h
  apply_inputs-IsView (received msg ∷ inputs) s h =
      apply_inputs-IsView inputs (apply_message texts msg s) (apply_message-IsView msg s h)
  apply_inputs-IsView (changed status ∷ inputs) s h =
      apply_inputs-IsView inputs (set_connection texts status s) (set_connection-IsView status s h)
