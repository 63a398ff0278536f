-- ===== src/GameSession/Hand.antt =====
-- The calls that go through `ask_current_player`, and the invariant of a session.
use ascii_poker.Prelude.{
  ℕ, zero, suc, ◌+◌, ◌%◌, ◌≤◌, inl, inr, true, false, not, List, length, sum_of, arith, ◌==◌, ltb,
  Bool-cases, List-cases,
}
use ascii_poker.Card.{Card}
use ascii_poker.Deck.{IsShuffle}
use ascii_poker.Protocol.{GamePhase, pre_flop, flop, turn, river, showdown}
use ascii_poker.GameSession.State.{GameSession, Outcome, returns, ◌>>=◌}
use ascii_poker.GameSession.Seats.{
  player_at, can_player_act, first_to_act_postflop, live_players, count_active_players,
  advance_to_next_player, is_round_complete, has_enough_players, count_players_with_chips,
}
use ascii_poker.GameSession.Award.{award_all_pots}
use ascii_poker.GameSession.Phases.{
  deal_hands, stack_of, reset_table, open_betting, deal_community, clear_bets, start,
  start_new_hand, try_start_new_hand, handle_single_winner, do_showdown, open_phase,
  deal_next_phase, next_phase, ask_current_player,
}
use ascii_poker.GameSession.Outcomes.{NeverThrows, Returns-NeverThrows->>=, NeverThrows-if}
use ascii_poker.GameSession.Sound.{
  cards_needed, advance-IsSound, is_round_complete-Returns, first_to_act_postflop-lt,
}
use ascii_poker.GameSession.NewHand.{Deals, deal_hands-Deals}
use ascii_poker.GameSession.Opening.{
  IsTable, SoundWithin, SoundWithin-effects, Deals-SoundWithin, deck_of_52,
  open_betting-SoundWithin,
}
use ascii_poker.GameSession.Calls.{
  broadcast_then, award-SoundWithin, IsTable-of, enter_phase, clear_bets-SoundWithin,
  deal_community-SoundWithin,
}

SoundWithin-weaken : (m n : ℕ) (s : GameSession) → m ≤ n → SoundWithin m s → SoundWithin n s
SoundWithin-weaken m n s le h = (h.0, omega arith)

module _ (shuffle : ℕ → List Card → List Card) (perm : IsShuffle shuffle) where
  module _ (ask : GameSession → Outcome GameSession)
      (ask_keeps : (n : ℕ) (s : GameSession)
        → SoundWithin n s
        → NeverThrows (SoundWithin n) (ask s)) where
    -- A hand that starts at a table puts no chips there but the players' stacks.
    pub start_at_table :
        (n : ℕ) (s : GameSession)
        → IsTable s
        → sum_of (stack_of s) s.players ≤ n
        → NeverThrows (SoundWithin n) (start shuffle ask s)
    unfolding start
    start_at_table n s table le =
        let few = table.few in
        let size = deck_of_52 shuffle perm s in
        let fresh = reset_table shuffle s in
        Returns-NeverThrows->>= (Deals fresh s.players) (SoundWithin n) (deal_hands s.players fresh)
          _ (deal_hands-Deals s.players fresh table.distinct (omega arith))
          λ dealt k.
            let taken = k.taken in
            let sound = Deals-SoundWithin shuffle perm s dealt table k in
            let opened = open_betting-SoundWithin _ dealt (omega arith) sound in
            broadcast_then n ask (open_betting dealt) (ask_keeps n)
              (SoundWithin-weaken _ n (open_betting dealt) le opened)

    start_new_hand-SoundWithin :
        (n : ℕ) (s : GameSession)
        → SoundWithin n s
        → NeverThrows (SoundWithin n) (start_new_hand shuffle ask s)
    unfolding start_new_hand
    start_new_hand-SoundWithin n s h =
        let nonempty = h.0.nonempty in
        let (table, le) =
          IsTable-of n s h ((s.dealer_index + 1) % length s.players) (omega arith) in
        start_at_table n _ table le

    pub try_start_new_hand-SoundWithin :
        (n : ℕ) (s : GameSession)
        → SoundWithin n s
        → NeverThrows (SoundWithin n) (try_start_new_hand shuffle ask s)
    unfolding try_start_new_hand
    try_start_new_hand-SoundWithin n s h =
        NeverThrows-if (SoundWithin n) (not (has_enough_players s)) (returns s) _ h (
          NeverThrows-if (SoundWithin n) (ltb (count_players_with_chips s) 2) (returns s) _ h
            (start_new_hand-SoundWithin n s h))

    pub handle_single_winner-SoundWithin :
        (n : ℕ) (s : GameSession)
        → SoundWithin n s
        → NeverThrows (SoundWithin n) (handle_single_winner shuffle ask s)
    unfolding handle_single_winner
    handle_single_winner-SoundWithin n s h =
        Returns-NeverThrows->>= (SoundWithin n) (SoundWithin n) (award_all_pots s) _
          (award-SoundWithin n s h) (try_start_new_hand-SoundWithin n)

    do_showdown-SoundWithin :
        (n : ℕ) (s : GameSession)
        → SoundWithin n s
        → NeverThrows (SoundWithin n) (do_showdown shuffle ask s)
    unfolding do_showdown handle_single_winner
    do_showdown-SoundWithin n s h =
        broadcast_then n _ (record s { phase = showdown })
          (λ t sound. elim (List-cases (live_players t)) [
            | inl e ↦ rw e (try_start_new_hand-SoundWithin n t sound)
            | inr (p, ps, e) ↦ elim (List-cases ps) [
              | inl e' ↦ rw (e, e') (handle_single_winner-SoundWithin n t sound)
              | inr (q, qs, e') ↦ rw (e, e') (handle_single_winner-SoundWithin n t sound)
            ]
          ])
          (enter_phase n s showdown s.current_player_index (omega arith) h.0.current h)

    open_phase-SoundWithin :
        (n : ℕ) (s : GameSession)
        → SoundWithin n s
        → NeverThrows (SoundWithin n) (open_phase shuffle ask s)
    unfolding open_phase
    open_phase-SoundWithin n s h =
        let (sound, le) =
          enter_phase n s s.phase (first_to_act_postflop s) h.0.stocked
            (first_to_act_postflop-lt s h.0.dealer) h in
        broadcast_then n ask _ (ask_keeps n) (ground arith, le)

    deal_and_open :
        (n k : ℕ) (s : GameSession) (p : GamePhase)
        → k + cards_needed p ≤ length s.deck.cards
        → SoundWithin n s
        → NeverThrows
            (SoundWithin n)
            (deal_community k s >>= λ t. open_phase shuffle ask (record t { phase = p }))
    deal_and_open n k s p enough h =
        Returns-NeverThrows->>= (λ t. SoundWithin n (record t { phase = p })) (SoundWithin n)
          (deal_community k s) _ (deal_community-SoundWithin n k s p enough h)
          (λ t sound. open_phase-SoundWithin n _ sound)

    deal_next_phase-SoundWithin :
        (n : ℕ) (s : GameSession)
        → SoundWithin n s
        → NeverThrows (SoundWithin n) (deal_next_phase shuffle ask s)
    unfolding deal_next_phase
    deal_next_phase-SoundWithin n s h = for_phase s.phase h.0.stocked
      where
        for_phase :
            (p : GamePhase)
            → cards_needed p ≤ length s.deck.cards
            → NeverThrows (SoundWithin n) (elim p [
              | pre_flop ↦
                  deal_community 3 s >>= λ t. open_phase shuffle ask (record t { phase = flop })
              | flop ↦
                  deal_community 1 s >>= λ t. open_phase shuffle ask (record t { phase = turn })
              | turn ↦
                  deal_community 1 s >>= λ t. open_phase shuffle ask (record t { phase = river })
              | river ↦ do_showdown shuffle ask s
              | showdown ↦ returns s
            ])
        for_phase pre_flop cards = deal_and_open n 3 s flop cards h
        for_phase flop cards = deal_and_open n 1 s turn cards h
        for_phase turn cards = deal_and_open n 1 s river cards h
        for_phase river cards = do_showdown-SoundWithin n s h
        for_phase showdown cards = h

    pub next_phase-SoundWithin :
        (n : ℕ) (s : GameSession)
        → SoundWithin n s
        → NeverThrows (SoundWithin n) (next_phase shuffle ask s)
    unfolding next_phase
    next_phase-SoundWithin n s h =
        NeverThrows-if (SoundWithin n) (count_active_players s == 1) _ _
          (handle_single_winner-SoundWithin n s h)
          (deal_next_phase-SoundWithin n (clear_bets s) (clear_bets-SoundWithin n s h))

    -- The end of a turn: the phase ends with the round, or the next player is asked.
    pub end_turn-SoundWithin :
        (n : ℕ) (s : GameSession) (go : GameSession → Outcome GameSession)
        → ((t : GameSession) → SoundWithin n t → NeverThrows (SoundWithin n) (go t))
        → SoundWithin n s
        → NeverThrows (SoundWithin n) (
            is_round_complete s >>= λ complete. elim complete [
              | true ↦ next_phase shuffle ask s
              | false ↦ go s
            ])
    end_turn-SoundWithin n s go keeps h =
        Returns-NeverThrows->>= (λ _. Unit {0}) (SoundWithin n) (is_round_complete s) _
          (is_round_complete-Returns s h.0.seated)
          (λ complete _. elim (Bool-cases complete) [
            | inl e ↦ rw e (next_phase-SoundWithin n s h)
            | inr e ↦ rw e (keeps s h)
          ])

  pub advance-SoundWithin :
      (n : ℕ) (s : GameSession) → SoundWithin n s → SoundWithin n (advance_to_next_player s)
  unfolding advance_to_next_player
  advance-SoundWithin n s h = (advance-IsSound s h.0, h.1)

  -- The next turn is offered, a phase is opened, or a hand is ended and the next one begun: with any
  -- fuel nothing is thrown, the invariant holds after it, and no chips have been made.
  pub ask_current_player-SoundWithin :
      (fuel n : ℕ) (s : GameSession)
      → SoundWithin n s
      → NeverThrows (SoundWithin n) (ask_current_player shuffle fuel s)
  unfolding ask_current_player
  ask_current_player-SoundWithin zero n s h = tt
  ask_current_player-SoundWithin (suc fuel) n s h =
      let next = ask_current_player-SoundWithin fuel in
      elim (Bool-cases (can_player_act s (player_at s s.current_player_index))) [
        | inl e ↦ rw (e, ask_current_player) (SoundWithin-effects n s s.bankrolls _ h)
        | inr e ↦
            rw (e, ask_current_player)
              (end_turn-SoundWithin (ask_current_player shuffle fuel) next n
                (advance_to_next_player s) (ask_current_player shuffle fuel) (next n)
                (advance-SoundWithin n s h))
      ]
