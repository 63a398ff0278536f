-- ===== src/GameSession/Moves.antt =====
-- What a connection can do at the table: act, or leave.
use ascii_poker.Prelude.{
  ℕ, zero, suc, ◌+◌, ◌-◌, Bool, true, false, not, ◌&&◌, List, [], ◌∷◌, Option, none, some, length,
  ltb, leb, ◌==◌, if◌then◌else◌, at_key, assign, u32, sub32,
}
use ascii_poker.Card.{Card}
use ascii_poker.Protocol.{
  Action, fold, check, call, raise, ErrorCode, not_your_turn, cannot_check, invalid_raise,
  not_enough_chips, error_reply,
}
use ascii_poker.GameSession.State.{GameSession, Outcome, returns, ◌>>=◌, emit, send_message}
use ascii_poker.GameSession.Seats.{
  player_at, count_active_players, advance_to_next_player, is_round_complete, has_enough_players,
}
use ascii_poker.GameSession.Chips.{contribute, record_player_action, persist_player_chips}
use ascii_poker.GameSession.Notify.{broadcast_state, broadcast_action_event}
use ascii_poker.GameSession.Award.{award_all_pots}
use ascii_poker.GameSession.Phases.{
  try_start_new_hand, handle_single_winner, next_phase, ask_current_player,
}

-- The `switch` of `apply_action` ends with an error for the player, or goes on with a new state.
pub data Attempt : Type 0 where
  refused : ErrorCode → Attempt
  accepted : GameSession → Attempt

-- `case Action::Raise`, with the amount given.
unfoldable pub raise_to : ℕ → ℕ → GameSession → Attempt
unfolding contribute
raise_to amount current s =
    let bet = at_key s.round_bets current in
    let chips = at_key s.chips current in
    let min_raise_total = u32 (s.current_bet + s.last_raise_increment) in
    let all_in_total = u32 (bet + chips) in
    let to_put = sub32 amount bet in
    let s' = (contribute current to_put s).0 in
    let bet' = at_key s'.round_bets current in
    if leb amount s.current_bet
    then refused invalid_raise
    else if leb amount bet
    then refused invalid_raise
    else if ltb amount min_raise_total && ltb amount all_in_total
    then refused invalid_raise
    else if ltb chips to_put
    then refused not_enough_chips
    else if ltb s'.current_bet bet'
    then accepted
        (record s' { last_raise_increment = sub32 bet' s.current_bet; current_bet = bet' })
    else accepted s'

-- The `switch` on the action.
unfoldable pub perform : Action → Option ℕ → ℕ → GameSession → Attempt
unfolding contribute raise_to
perform fold amount current s =
    accepted (record s { folded_players = assign s.folded_players current true })
perform check amount current s =
    if not (s.current_bet == at_key s.round_bets current) then refused cannot_check else accepted s
perform call amount current s =
    let to_call = sub32 s.current_bet (at_key s.round_bets current) in
    accepted (if ltb 0 to_call then (contribute current to_call s).0 else s)
perform raise none current s = refused invalid_raise
perform raise (some amount) current s = raise_to amount current s

module _ (shuffle : ℕ → List Card → List Card) (fuel : ℕ) where
  -- The tests on the round that end `apply_action`, and with another order `remove_player`.
  unfoldable pub pass_turn : GameSession → Outcome GameSession
  unfolding advance_to_next_player is_round_complete next_phase ask_current_player
  pass_turn s =
      let s' = advance_to_next_player s in
      is_round_complete s' >>= λ complete. elim complete [
        | true ↦ next_phase shuffle (ask_current_player shuffle fuel) s'
        | false ↦ ask_current_player shuffle fuel s'
      ]

  -- `apply_action` once the action has been accepted.
  unfoldable pub after_action : Action → Option ℕ → ℕ → GameSession → Outcome GameSession
  unfolding record_player_action broadcast_action_event count_active_players handle_single_winner
      pass_turn
  after_action action amount current s =
      let s' =
        broadcast_action_event (s.name_of current) action amount
          (record_player_action current action s) in
      elim (count_active_players s' == 1) [
        | true ↦ handle_single_winner shuffle (ask_current_player shuffle fuel) s'
        | false ↦ pass_turn s'
      ]

  unfoldable pub apply_action : ℕ → Action → Option ℕ → GameSession → Outcome GameSession
  unfolding perform after_action error_reply
  apply_action connection action amount s = elim (s.connection_map connection) [
    | none ↦ returns s
    | some current ↦
        if not (player_at s s.current_player_index == current)
        then returns (emit (send_message current (error_reply not_your_turn)) s)
        else (elim (perform action amount current s) [
          | refused code ↦ returns (emit (send_message current (error_reply code)) s)
          | accepted s' ↦ after_action action amount current s'
        ])
  ]

-- `std::find_if` in `players_`: the index of a player.
abbrev pub index_of : ℕ → List ℕ → Option ℕ
index_of p [] = none
index_of p (q ∷ qs) =
    let rest : Option ℕ = elim (index_of p qs) [ none ↦ none | some i ↦ some (suc i) ] in
    if q == p then some 0 else rest

-- `players_.erase(player_it)`.
abbrev pub erase_at : ℕ → List ℕ → List ℕ
erase_at i [] = []
erase_at zero (q ∷ qs) = qs
erase_at (suc i) (q ∷ qs) = q ∷ erase_at i qs

unfoldable pub erase_player_state : ℕ → ℕ → GameSession → GameSession
unfolding persist_player_chips
erase_player_state player connection s =
    let s' = persist_player_chips player s in
    record s' {
      hands = assign s'.hands player none;
      chips = assign s'.chips player none;
      round_bets = assign s'.round_bets player none;
      total_contributed = assign s'.total_contributed player none;
      folded_players = assign s'.folded_players player false;
      all_in_players = assign s'.all_in_players player false;
      players_acted = assign s'.players_acted player false;
      connection_map = assign s'.connection_map connection none;
    }

-- An index after the player at `removed` has gone, with `n` players left.
abbrev pub index_after_removal : ℕ → ℕ → ℕ → ℕ
index_after_removal removed n index =
    if leb n index then 0 else if ltb removed index then index - 1 else index

unfoldable pub fix_indices_after_removal : ℕ → GameSession → GameSession
fix_indices_after_removal removed s = record s {
  dealer_index = index_after_removal removed (length s.players) s.dealer_index;
  current_player_index = index_after_removal removed (length s.players) s.current_player_index;
}

module _ (shuffle : ℕ → List Card → List Card) (fuel : ℕ) where
  unfoldable pub continue_after_player_left : Bool → GameSession → Outcome GameSession
  unfolding is_round_complete next_phase ask_current_player broadcast_state
  continue_after_player_left was_current s = is_round_complete s >>= λ complete. elim complete [
    | true ↦ next_phase shuffle (ask_current_player shuffle fuel) s
    | false ↦ elim was_current [
      | true ↦ ask_current_player shuffle fuel s
      | false ↦ broadcast_state s
    ]
  ]

  -- `remove_player` once the pots are paid, if they had to be.
  unfoldable pub unseat : ℕ → ℕ → ℕ → Bool → GameSession → Outcome GameSession
  unfolding erase_player_state fix_indices_after_removal count_active_players try_start_new_hand
      continue_after_player_left ask_current_player
  unseat player connection index was_current s =
      let gone = erase_player_state player connection s in
      let left = record gone { players = erase_at index gone.players } in
      let fixed = fix_indices_after_removal index left in
      if length left.players == 0
      then returns left
      else if not (has_enough_players fixed)
      then returns fixed
      else (elim (count_active_players fixed == 1) [
        | true ↦ try_start_new_hand shuffle (ask_current_player shuffle fuel) fixed
        | false ↦ continue_after_player_left was_current fixed
      ])

  unfoldable pub remove_player : ℕ → GameSession → Outcome GameSession
  unfolding count_active_players award_all_pots unseat
  remove_player connection s = elim (s.connection_map connection) [
    | none ↦ returns s
    | some player ↦ elim (index_of player s.players) [
      | none ↦ returns s
      | some index ↦
          let was_current = player_at s s.current_player_index == player in
          let s' = record s { folded_players = assign s.folded_players player true } in
          elim (count_active_players s' == 1) [
            | true ↦ award_all_pots s' >>= unseat player connection index was_current
            | false ↦ unseat player connection index was_current s'
          ]
    ]
  ]
