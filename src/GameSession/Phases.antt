-- ===== src/GameSession/Phases.antt =====
-- The course of a hand. All calls in a cycle go through `ask_current_player`, so that function takes
-- fuel, and the others take it, with the fuel that is left, as the argument `ask`. `shuffle` is
-- `std::shuffle` with the random device's state `seed`.
use ascii_poker.Prelude.{
  ℕ, zero, suc, ◌+◌, ◌%◌, true, false, not, List, [], ◌∷◌, ◌++◌, none, some, length, ltb, ◌==◌,
  if◌then◌else◌, assign, empty_set, empty_map,
}
use mathlib.Core.Option
use ascii_poker.Card.{Card}
use ascii_poker.Deck.{new_deck, deal}
use ascii_poker.Protocol.{pre_flop, flop, turn, river, showdown, your_turn}
use ascii_poker.GameSession.State.{
  GameSession, Outcome, returns, out_of_range, out_of_fuel, ◌>>=◌, emit, send_message,
  starting_chips, big_blind_size,
}
use ascii_poker.GameSession.Seats.{
  player_at, can_player_act, first_to_act_preflop, first_to_act_postflop, live_players,
  count_active_players, advance_to_next_player, is_round_complete, has_enough_players,
  count_players_with_chips,
}
use ascii_poker.GameSession.Chips.{post_blinds, begin_betting_round, persist_all_chips}
use ascii_poker.GameSession.Notify.{broadcast_state, turn_offer}
use ascii_poker.GameSession.Award.{award_all_pots}

-- The chips with which a player without a stack sits down.
abbrev pub buy_in : GameSession → ℕ → ℕ
buy_in s player = elim (s.bankrolls (s.name_of player)) [ none ↦ starting_chips | some b ↦ b ]

abbrev pub stack_of : GameSession → ℕ → ℕ
stack_of s player = elim (s.chips player) [ none ↦ buy_in s player | some c ↦ c ]

-- The loop of `start` over the players.
unfoldable pub deal_hands : List ℕ → GameSession → Outcome GameSession
deal_hands [] s = returns s
deal_hands (p ∷ ps) s = elim (deal 2 s.deck) [
  | none ↦ out_of_range
  | some (hand, deck) ↦ deal_hands ps (record s {
    chips = assign s.chips p (some (stack_of s p));
    deck = deck;
    hands = assign s.hands p (some hand);
    round_bets = assign s.round_bets p (some 0);
    total_contributed = assign s.total_contributed p (some 0);
  })
]

-- Fresh cards and no bets; the members that `start` does not touch stay.
unfoldable pub reset_table : (ℕ → List Card → List Card) → GameSession → GameSession
unfolding new_deck
reset_table shuffle s = record s {
  deck = record { cards = shuffle s.seed new_deck.cards };
  seed = suc s.seed;
  community_cards = [];
  folded_players = empty_set;
  all_in_players = empty_set;
  pot = 0;
  current_bet = 0;
  last_raise_increment = big_blind_size;
  total_contributed = empty_map;
}

-- `start` up to the call of `broadcast_state`.
unfoldable pub open_betting : GameSession → GameSession
unfolding post_blinds first_to_act_preflop persist_all_chips
open_betting s =
    let s' = begin_betting_round (post_blinds s) in
    persist_all_chips
      (record s' { current_player_index = first_to_act_preflop s'; phase = pre_flop })

-- The cards that the next phase adds.
unfoldable pub deal_community : ℕ → GameSession → Outcome GameSession
deal_community n s = elim (deal n s.deck) [
  | none ↦ out_of_range
  | some (cards, deck) ↦
      returns (record s { deck = deck; community_cards = s.community_cards ++ cards })
]

abbrev pub clear_bets : GameSession → GameSession
clear_bets s = record s {
  current_bet = 0;
  last_raise_increment = big_blind_size;
  round_bets = λ p. Option.map (λ _. 0) (s.round_bets p);
}

module _ (shuffle : ℕ → List Card → List Card) (ask : GameSession → Outcome GameSession) where
  unfoldable pub start : GameSession → Outcome GameSession
  unfolding deal_hands reset_table open_betting broadcast_state
  start s = do
    dealt ← deal_hands s.players (reset_table shuffle s)
    s' ← broadcast_state (open_betting dealt)
    ask s'

  unfoldable pub start_new_hand : GameSession → Outcome GameSession
  unfolding start
  start_new_hand s = start (record s { dealer_index = (s.dealer_index + 1) % length s.players })

  unfoldable pub try_start_new_hand : GameSession → Outcome GameSession
  unfolding start_new_hand count_players_with_chips
  try_start_new_hand s =
      if not (has_enough_players s)
      then returns s
      else if ltb (count_players_with_chips s) 2
      then returns s
      else start_new_hand s

  -- The winner is only logged.
  unfoldable pub handle_single_winner : GameSession → Outcome GameSession
  unfolding award_all_pots try_start_new_hand
  handle_single_winner s = award_all_pots s >>= try_start_new_hand

  unfoldable pub do_showdown : GameSession → Outcome GameSession
  unfolding broadcast_state award_all_pots try_start_new_hand handle_single_winner
  do_showdown s = broadcast_state (record s { phase = showdown }) >>= λ s'. elim (live_players s') [
    | [] ↦ try_start_new_hand s'
    | p ∷ ps ↦ elim ps [
      | [] ↦ handle_single_winner s'
      | q ∷ qs ↦ award_all_pots s' >>= try_start_new_hand
    ]
  ]

  -- The end of `next_phase`, when cards have been dealt.
  unfoldable pub open_phase : GameSession → Outcome GameSession
  unfolding first_to_act_postflop broadcast_state
  open_phase s =
      broadcast_state
        (begin_betting_round (record s { current_player_index = first_to_act_postflop s }))
      >>= ask

  -- `next_phase` when the hand goes on.
  unfoldable pub deal_next_phase : GameSession → Outcome GameSession
  unfolding deal_community do_showdown open_phase
  deal_next_phase s = elim s.phase [
    | pre_flop ↦ deal_community 3 s >>= λ t. open_phase (record t { phase = flop })
    | flop ↦ deal_community 1 s >>= λ t. open_phase (record t { phase = turn })
    | turn ↦ deal_community 1 s >>= λ t. open_phase (record t { phase = river })
    | river ↦ do_showdown s
    | showdown ↦ returns s
  ]

  unfoldable pub next_phase : GameSession → Outcome GameSession
  unfolding count_active_players handle_single_winner deal_next_phase
  next_phase s =
      if count_active_players s == 1 then handle_single_winner s else deal_next_phase (clear_bets s)

unfoldable pub ask_current_player :
    (ℕ → List Card → List Card) → ℕ → GameSession → Outcome GameSession
unfolding next_phase turn_offer advance_to_next_player is_round_complete
ask_current_player shuffle zero s = out_of_fuel
ask_current_player shuffle (suc fuel) s =
    let current = player_at s s.current_player_index in
    elim (can_player_act s current) [
      | true ↦ returns (emit (send_message current (your_turn (turn_offer s current))) s)
      | false ↦
          let s' = advance_to_next_player s in
          is_round_complete s' >>= λ complete. elim complete [
            | true ↦ next_phase shuffle (ask_current_player shuffle fuel) s'
            | false ↦ ask_current_player shuffle fuel s'
          ]
    ]
