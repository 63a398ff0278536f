-- ===== src/GameSession/Ending.antt =====
-- How the calls of `apply_action` and `start` end.
use ascii_poker.Prelude.{
  ℕ, ◌+◌, ◌≤◌, ◌≡◌, refl, inl, inr, true, List, Option, some, arith, ◌==◌, sum_of, Bool-cases,
  Option-cases,
}
use ascii_poker.Card.{Card}
use ascii_poker.Deck.{IsShuffle}
use ascii_poker.Protocol.{Action}
use ascii_poker.GameSession.State.{GameSession}
use ascii_poker.GameSession.Seats.{
  player_at, count_active_players, advance_to_next_player, is_round_complete,
}
use ascii_poker.GameSession.Chips.{record_player_action}
use ascii_poker.GameSession.Notify.{broadcast_state, broadcast_action_event}
use ascii_poker.GameSession.Phases.{
  deal_hands, stack_of, reset_table, open_betting, start, ask_current_player,
}
use ascii_poker.GameSession.Moves.{
  Attempt, refused, accepted, perform, pass_turn, after_action, apply_action,
}
use ascii_poker.GameSession.Seated.{SameTable, broadcast_state-Returns}
use ascii_poker.GameSession.Sound.{is_round_complete-Returns}
use ascii_poker.GameSession.NewHand.{Deals, deal_hands-Deals}
use ascii_poker.GameSession.Opening.{
  IsTable, SoundWithin, SoundWithin-effects, Deals-SoundWithin, deck_of_52,
  open_betting-SoundWithin,
}
use ascii_poker.GameSession.Calls.{SoundWithin-SameTable}
use ascii_poker.GameSession.Hand.{advance-SoundWithin}
use ascii_poker.GameSession.Turns.{
  KeepsSound, perform-KeepsSound, record_player_action-SoundWithin,
  broadcast_action_event-SoundWithin, in_turn-elem,
}
use ascii_poker.GameSession.Course.{
  Settles, Settles->>=, single_winner-Settles, next_phase-Settles, ask_current_player-Settles,
  fuel_for-le,
}

-- With a round of fuel for each phase, and one more for each, a hand comes to its end.
module _ (shuffle : ℕ → List Card → List Card) (perm : IsShuffle shuffle) (spare fuel : ℕ)
    (enough : spare + 8 ≤ fuel) where
  pub asks :
      (n : ℕ) (s : GameSession)
      → SoundWithin n s
      → Settles shuffle spare n (ask_current_player shuffle fuel s)
  asks n s h =
      ask_current_player-Settles shuffle perm spare fuel n s (omega (arith, fuel_for-le s.phase)) h

  pass_turn-Settles :
      (n : ℕ) (s : GameSession)
      → SoundWithin n s
      → Settles shuffle spare n (pass_turn shuffle fuel s)
  unfolding pass_turn
  pass_turn-Settles n s h =
      let t = advance_to_next_player s in
      let sound = advance-SoundWithin shuffle perm n s h in
      Settles->>= shuffle perm spare (λ _. Unit {0}) n (is_round_complete t) _
        (is_round_complete-Returns t sound.0.seated)
        λ complete _. elim (Bool-cases complete) [
          | inl e ↦ rw e (
              next_phase-Settles shuffle perm spare fuel (omega arith) (λ m u _. asks m u) n t
                (omega (arith, fuel_for-le t.phase)) sound)
          | inr e ↦ rw e (asks n t sound)
        ]

  after_action-Settles :
      (n : ℕ) (action : Action) (amount : Option ℕ) (current : ℕ) (s : GameSession)
      → SoundWithin n s
      → Settles shuffle spare n (after_action shuffle fuel action amount current s)
  unfolding after_action
  after_action-Settles n action amount current s h =
      let t =
        broadcast_action_event (s.name_of current) action amount
          (record_player_action current action s) in
      let sound =
        broadcast_action_event-SoundWithin n (s.name_of current) action amount _
          (record_player_action-SoundWithin n current action s h) in
      elim (Bool-cases (count_active_players t == 1)) [
        | inl e ↦
            rw (e, after_action)
              (single_winner-Settles shuffle perm spare fuel (omega arith) (λ m u _. asks m u) n t
                sound)
        | inr e ↦ rw (e, after_action) (pass_turn-Settles n t sound)
      ]

  -- With a shuffle that permutes the cards: an action at a sound session with at most `n` chips,
  -- from whatever connection and of whatever kind and amount, ends. With `spare + 8` or more fuel
  -- the call returns a sound session with at most `n` chips, or comes to the end of the hand, where
  -- a sound session with at most those chips is left, and what remains is the call of
  -- `try_start_new_hand` on it with at least `spare` fuel.
  pub apply_action-Settles :
      (n connection : ℕ) (action : Action) (amount : Option ℕ) (s : GameSession)
      → SoundWithin n s
      → Settles shuffle spare n (apply_action shuffle fuel connection action amount s)
  unfolding apply_action
  apply_action-Settles n connection action amount s h =
      elim (Option-cases (s.connection_map connection)) [
        | inl e ↦ rw (e, apply_action) (inl h)
        | inr (current, e) ↦ elim (Bool-cases (player_at s s.current_player_index == current)) [
          | inl turn ↦
              settle current e turn (perform action amount current s) refl
                (perform-KeepsSound n action amount current s (in_turn-elem n current s turn h) h)
          | inr other ↦ rw (e, other, apply_action) (inl (SoundWithin-effects n s s.bankrolls _ h))
        ]
      ]
    where
      settle :
          (current : ℕ)
          → s.connection_map connection ≡ some current
          → (player_at s s.current_player_index == current) ≡ true
          → (attempt : Attempt) → perform action amount current s ≡ attempt
          → KeepsSound n attempt
          → Settles shuffle spare n (apply_action shuffle fuel connection action amount s)
      settle current e turn (refused code) did k =
          rw (e, turn, did, apply_action) (inl (SoundWithin-effects n s s.bankrolls _ h))
      settle current e turn (accepted s') did k =
          rw (e, turn, did, apply_action) (after_action-Settles n action amount current s' k)

  -- With a shuffle that permutes the cards: a start at a table of 1 to 23 players, none listed
  -- twice and with the indices of the table, whose stacks (or buy-ins) come to `n` chips at most
  -- and together to less than 2^32 - 1, ends. With `spare + 8` or more fuel the call returns a
  -- sound session with at most `n` chips, or comes to the end of the hand, where a sound session
  -- with at most those chips is left, and what remains is the call of `try_start_new_hand` on it
  -- with at least `spare` fuel.
  pub start-Settles :
      (n : ℕ) (s : GameSession)
      → IsTable s
      → sum_of (stack_of s) s.players ≤ n
      → Settles shuffle spare n (start shuffle (ask_current_player shuffle fuel) s)
  unfolding start
  start-Settles n s table le =
      let few = table.few in
      let size = deck_of_52 shuffle perm s in
      let fresh = reset_table shuffle s in
      Settles->>= shuffle perm spare (Deals fresh s.players) n (deal_hands s.players fresh) _
        (deal_hands-Deals s.players fresh table.distinct (omega arith))
        λ dealt k.
          let taken = k.taken in
          let (sound, total) =
            open_betting-SoundWithin _ dealt (omega arith)
              (Deals-SoundWithin shuffle perm s dealt table k) in
          let opened = open_betting dealt in
          Settles->>= shuffle perm spare (SameTable opened) n (broadcast_state opened) _
            (broadcast_state-Returns opened sound.seated)
            (λ t same. asks n t (SoundWithin-SameTable n opened t same (sound, omega arith)))
