-- ===== src/GameSession/Notify.antt =====
-- The messages to the players. They change nothing of the session but its effects.
use Prim.Native.String.{String}
use ascii_poker.Prelude.{
  ℕ, suc, ◌+◌, Bool, true, false, not, ◌&&◌, List, [], ◌∷◌, ◌++◌, Option, none, some, ltb, leb,
  ◌==◌, if◌then◌else◌, at_key, u32, sub32,
}
use ascii_poker.Protocol.{
  Action, fold, check, call, raise, GamePhase, showdown, PlayerState, YourTurn, game_state_update,
  action_event, hand_result, ServerMessage,
}
use ascii_poker.GameSession.State.{GameSession, Outcome, returns, ◌>>=◌, at, send_message, emit}
use ascii_poker.GameSession.Seats.{sb_index, bb_index, player_at, can_player_act}

-- The same message, or one of its own, to each player in turn.
unfoldable pub send_each : (ℕ → ServerMessage) → List ℕ → GameSession → GameSession
send_each msg [] s = s
send_each msg (p ∷ ps) s = send_each msg ps (emit (send_message p (msg p)) s)

unfoldable pub player_state : GameSession → Bool → ℕ → ℕ → Outcome PlayerState
unfolding sb_index bb_index
player_state s reveal i p = do
  chips ← at (s.chips p)
  round_bet ← at (s.round_bets p)
  let is_folded = s.folded_players p
  hole_cards ← (if reveal && not is_folded then at (s.hands p) else returns [])
  returns (record {
    name = s.name_of p;
    chips = chips;
    round_bet = round_bet;
    folded = is_folded;
    all_in = s.all_in_players p;
    is_dealer = i == s.dealer_index;
    is_small_blind = i == sb_index s;
    is_big_blind = i == bb_index s;
    hole_cards = hole_cards;
  })

-- The loop of `build_player_states` from index `i` on.
unfoldable pub player_states_from : GameSession → Bool → ℕ → List ℕ → Outcome (List PlayerState)
unfolding player_state
player_states_from s reveal i [] = returns []
player_states_from s reveal i (p ∷ ps) = do
  state ← player_state s reveal i p
  states ← player_states_from s reveal (suc i) ps
  returns (state ∷ states)

unfoldable pub build_player_states : GameSession → Bool → Outcome (List PlayerState)
unfolding player_states_from
build_player_states s reveal = player_states_from s reveal 0 s.players

abbrev pub is_showdown : GamePhase → Bool
is_showdown showdown = true
is_showdown _ = false

abbrev pub state_update : GameSession → List PlayerState → ℕ → ServerMessage
state_update s states player =
    let active = player_at s s.current_player_index in
    game_state_update (record {
      general_cards = s.community_cards;
      your_cards = elim (s.hands player) [ none ↦ [] | some cards ↦ cards ];
      phase = s.phase;
      active_player_name = if can_player_act s active then s.name_of active else "";
      total_pot = s.pot;
      current_bet = s.current_bet;
      players = states;
    })

unfoldable pub broadcast_state : GameSession → Outcome GameSession
unfolding build_player_states send_each
broadcast_state s = do
  states ← build_player_states s (is_showdown s.phase)
  returns (send_each (state_update s states) s.players s)

unfoldable pub broadcast_action_event : String → Action → Option ℕ → GameSession → GameSession
unfolding send_each
broadcast_action_event player_name action amount s =
    let event =
      action_event (record { player_name = player_name; action = action; amount = amount }) in
    send_each (λ _. event) s.players s

unfoldable pub broadcast_hand_result : List String → List String → ℕ → GameSession → GameSession
unfolding send_each
broadcast_hand_result winner_names winner_hand_labels amount s =
    let result = hand_result (record {
      winner_names = winner_names;
      pot_amount = amount;
      winner_hand_labels = winner_hand_labels;
    }) in
    send_each (λ _. result) s.players s

-- The `YourTurn` message of `ask_current_player`.
unfoldable pub turn_offer : GameSession → ℕ → YourTurn
turn_offer s current =
    let bet = at_key s.round_bets current in
    let chips = at_key s.chips current in
    let to_call = sub32 s.current_bet bet in
    let min_raise_total = u32 (s.current_bet + s.last_raise_increment) in
    let all_in_total = u32 (bet + chips) in
    let answers = (if to_call == 0 then check ∷ [] else if ltb 0 chips then call ∷ [] else []) in
    let raises =
      (if ltb to_call chips && leb min_raise_total all_in_total then raise ∷ [] else []) in
    record {
      available_actions = fold ∷ answers ++ raises;
      min_amount = min_raise_total;
      max_amount = all_in_total;
      to_call = to_call;
      your_chips = chips;
    }
