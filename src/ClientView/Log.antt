-- ===== src/ClientView/Log.antt =====
-- The log of the client.
use Prim.Native.String.{String}
use ascii_poker.Prelude.{
  ℕ, suc, ◌-◌, ◌≤◌, ◌≡◌, ◌⊎◌, refl, ap, ◌∙◌, List, [], ◌∷◌, ◌++◌, length, drop, arith, Bool-cases,
  ltb, inl, inr, Option-cases, if_elim, ◌&&◌,
}
use ascii_poker.Protocol.{
  JoinedRoom, ServerMessage, welcome, room_list, joined_room, game_state_update, your_turn, error,
  left_room, hand_result, action_event,
}
use ascii_poker.ClientView.{
  ClientViewState, Texts, max_log_lines, pop_lines, append_log, reset_play_session,
}
use ascii_poker.ClientView.Messages.{
  keep_roster, apply_message, apply_welcome, apply_room_list, apply_roster, apply_waiting,
  apply_joined_room, apply_game_state_update, apply_your_turn, apply_hand_result, apply_left_room,
  apply_error, is_in_game,
}

-- The last 200 of some lines.
abbrev pub last_lines : List String → List String
last_lines lines = drop (length lines - max_log_lines) lines

-- The loop keeps the last 200 lines.
pop_lines-last_lines : (lines : List String) → pop_lines lines ≡ last_lines lines
unfolding pop_lines
pop_lines-last_lines [] = refl
pop_lines-last_lines (line ∷ lines) = elim (Bool-cases (ltb max_log_lines (suc (length lines)))) [
  | inl full ↦
      let more : suc (length lines - max_log_lines) ≡ suc (length lines) - max_log_lines =
        ground arith in
      rw full (pop_lines-last_lines lines ∙ ap (λ (n : ℕ). drop n (line ∷ lines)) more)
  | inr fits ↦
      let none_over : 0 ≡ suc (length lines) - max_log_lines = ground arith in
      rw fits (ap (λ (n : ℕ). drop n (line ∷ lines)) none_over)
]

length-pop_lines : (lines : List String) → length (pop_lines lines) ≤ max_log_lines
unfolding pop_lines
length-pop_lines [] = omega arith
length-pop_lines (line ∷ lines) = ground (arith, length-pop_lines lines)

-- The log has not changed, or has one line more and is cut to the last 200.
abbrev pub IsLogged : List String → List String → Type 0
IsLogged log log' =
    (log' ≡ log)
    ⊎ ((line : String) × (log' ≡ last_lines (log ++ (line ∷ []))) × (length log' ≤ max_log_lines))

one_line : (line : String) (log : List String) → IsLogged log (pop_lines (log ++ (line ∷ [])))
one_line line log =
    let lines = log ++ (line ∷ []) in inr (line, pop_lines-last_lines lines, length-pop_lines lines)

module _ (texts : Texts) where
  apply_roster-IsLogged : (s : ClientViewState) → IsLogged s.log (apply_roster texts s).log
  unfolding apply_roster append_log
  apply_roster-IsLogged s = elim (Option-cases s.game_state) [
    | inl e ↦ rw (e, apply_roster) (one_line _ s.log)
    | inr (g, e) ↦ rw (e, apply_roster) (one_line _ s.log)
  ]

  apply_joined_room-IsLogged :
      (msg : JoinedRoom) (s : ClientViewState) → IsLogged s.log (apply_joined_room texts msg s).log
  unfolding apply_joined_room apply_waiting append_log
  apply_joined_room-IsLogged msg s =
      if_elim (λ (t : ClientViewState). IsLogged s.log t.log) (msg.in_game && is_in_game s.screen)
        (apply_roster-IsLogged (keep_roster msg s)) (one_line _ s.log)

  -- A message of the server changes the log by one line at the end at most: the log after it is
  -- unchanged, or the last 200 of its lines and the new one.
  pub apply_message-IsLogged :
      (msg : ServerMessage) (s : ClientViewState) → IsLogged s.log (apply_message texts msg s).log
  unfolding apply_message append_log reset_play_session apply_welcome apply_room_list
      apply_game_state_update apply_your_turn apply_hand_result apply_left_room apply_error
  apply_message-IsLogged (welcome msg) s = one_line _ s.log
  apply_message-IsLogged (room_list rooms) s = one_line _ s.log
  apply_message-IsLogged (joined_room msg) s = apply_joined_room-IsLogged msg s
  apply_message-IsLogged (game_state_update msg) s = inl refl
  apply_message-IsLogged (your_turn msg) s = inl refl
  apply_message-IsLogged (hand_result msg) s = one_line _ s.log
  apply_message-IsLogged (action_event msg) s = one_line _ s.log
  apply_message-IsLogged (left_room msg) s = one_line _ s.log
  apply_message-IsLogged (error msg) s = one_line _ s.log
