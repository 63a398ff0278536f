-- ===== src/GameSession/Turns.antt =====
-- `apply_action`, and the invariant of a session.
use ascii_poker.Prelude.{
  ℕ, ◌≡◌, subst, inl, inr, true, List, Option, none, some, elem, arith, ltb, ◌==◌, Bool-cases,
  Option-cases, at_key, Set, sub32,
}
use ascii_poker.Card.{Card}
use ascii_poker.Deck.{IsShuffle}
use ascii_poker.Protocol.{Action, fold, check, call, raise, error_reply}
use ascii_poker.GameSession.State.{GameSession, returns, emit, send_message}
use ascii_poker.GameSession.Seats.{player_at, count_active_players, advance_to_next_player}
use ascii_poker.GameSession.Chips.{contribute, record_player_action}
use ascii_poker.GameSession.Notify.{broadcast_action_event}
use ascii_poker.GameSession.Phases.{ask_current_player}
use ascii_poker.GameSession.Moves.{
  Attempt, refused, accepted, raise_to, perform, pass_turn, after_action, apply_action,
}
use ascii_poker.GameSession.Outcomes.{NeverThrows}
use ascii_poker.GameSession.Seated.{elem-get_or, send_each_effects}
use ascii_poker.GameSession.Opening.{SoundWithin, SoundWithin-effects, contribute-SoundWithin}
use ascii_poker.GameSession.Calls.{SoundWithin-SameTable}
use ascii_poker.GameSession.Hand.{
  handle_single_winner-SoundWithin, end_turn-SoundWithin, advance-SoundWithin,
  ask_current_player-SoundWithin,
}

-- Members that the invariant does not read.
pub SoundWithin-bets :
    (n : ℕ) (s : GameSession) (bet increment : ℕ) (folded acted : Set)
    → SoundWithin n s
    → SoundWithin n (record s {
      current_bet = bet;
      last_raise_increment = increment;
      folded_players = folded;
      players_acted = acted;
    })
SoundWithin-bets n s bet increment folded acted (h, le) = (ground arith, le)

-- An accepted action keeps the invariant.
abbrev pub KeepsSound : ℕ → Attempt → Type 0
KeepsSound n (refused code) = Unit
KeepsSound n (accepted s') = SoundWithin n s'

raise_to-KeepsSound :
    (n amount current : ℕ) (s : GameSession)
    → elem current s.players ≡ true
    → SoundWithin n s
    → KeepsSound n (raise_to amount current s)
unfolding raise_to
raise_to-KeepsSound n amount current s here h =
    let t = (contribute current (sub32 amount (at_key s.round_bets current)) s).0 in
    let paid : SoundWithin n t =
      contribute-SoundWithin n current (sub32 amount (at_key s.round_bets current)) s here h in
    let bet = at_key t.round_bets current in
    let raised =
      SoundWithin-bets n t bet (sub32 bet s.current_bet) t.folded_players t.players_acted paid in
    ground (arith, paid, raised)

pub perform-KeepsSound :
    (n : ℕ) (action : Action) (amount : Option ℕ) (current : ℕ) (s : GameSession)
    → elem current s.players ≡ true
    → SoundWithin n s
    → KeepsSound n (perform action amount current s)
unfolding perform
perform-KeepsSound n fold amount current s here h =
    SoundWithin-bets n s s.current_bet s.last_raise_increment _ s.players_acted h
perform-KeepsSound n check amount current s here h = ground arith
perform-KeepsSound n call amount current s here h =
    let to_call = sub32 s.current_bet (at_key s.round_bets current) in
    let paid = contribute-SoundWithin n current to_call s here h in
    elim (Bool-cases (ltb 0 to_call)) [ inl e ↦ rw e paid | inr e ↦ rw e h ]
perform-KeepsSound n raise none current s here h = tt
perform-KeepsSound n raise (some amount) current s here h =
    raise_to-KeepsSound n amount current s here h

pub record_player_action-SoundWithin :
    (n current : ℕ) (action : Action) (s : GameSession)
    → SoundWithin n s
    → SoundWithin n (record_player_action current action s)
unfolding record_player_action
record_player_action-SoundWithin n current fold s h =
    SoundWithin-bets n s s.current_bet s.last_raise_increment s.folded_players _ h
record_player_action-SoundWithin n current check s h =
    SoundWithin-bets n s s.current_bet s.last_raise_increment s.folded_players _ h
record_player_action-SoundWithin n current call s h =
    SoundWithin-bets n s s.current_bet s.last_raise_increment s.folded_players _ h
record_player_action-SoundWithin n current raise s h =
    SoundWithin-bets n s s.current_bet s.last_raise_increment s.folded_players _ h

pub broadcast_action_event-SoundWithin :
    (n : ℕ) (name : _) (action : Action) (amount : Option ℕ) (s : GameSession)
    → SoundWithin n s
    → SoundWithin n (broadcast_action_event name action amount s)
unfolding broadcast_action_event
broadcast_action_event-SoundWithin n name action amount s h =
    SoundWithin-SameTable n s _ (send_each_effects _ s.players s) h

-- The player in turn sits at the table.
pub in_turn-elem :
    (n current : ℕ) (s : GameSession)
    → (player_at s s.current_player_index == current) ≡ true
    → SoundWithin n s
    → elem current s.players ≡ true
in_turn-elem n current s turn h =
    let same : player_at s s.current_player_index ≡ current = ground arith in
    subst (λ (p : ℕ). elem p s.players ≡ true) same
      (elem-get_or s.players s.current_player_index h.0.current)

module _ (shuffle : ℕ → List Card → List Card) (perm : IsShuffle shuffle) (fuel : ℕ) where
  after_action-SoundWithin :
      (n : ℕ) (action : Action) (amount : Option ℕ) (current : ℕ) (s : GameSession)
      → SoundWithin n s
      → NeverThrows (SoundWithin n) (after_action shuffle fuel action amount current s)
  unfolding after_action pass_turn
  after_action-SoundWithin n action amount current s h =
      let ask = ask_current_player shuffle fuel in
      let keeps = ask_current_player-SoundWithin shuffle perm fuel in
      let t =
        broadcast_action_event (s.name_of current) action amount
          (record_player_action current action s) in
      let sound =
        broadcast_action_event-SoundWithin n (s.name_of current) action amount _
          (record_player_action-SoundWithin n current action s h) in
      elim (Bool-cases (count_active_players t == 1)) [
        | inl e ↦
            rw (e, after_action) (handle_single_winner-SoundWithin shuffle perm ask keeps n t sound)
        | inr e ↦
            rw (e, after_action)
              (end_turn-SoundWithin shuffle perm ask keeps n (advance_to_next_player t) ask
                (keeps n) (advance-SoundWithin shuffle perm n t sound))
      ]

  -- With a shuffle that permutes the cards: an action at a sound session, from whatever connection
  -- and of whatever kind and amount, throws nothing, whatever the fuel; and a session that the call
  -- returns is sound, with at most the `n` chips that bound those before.
  pub apply_action-SoundWithin :
      (n connection : ℕ) (action : Action) (amount : Option ℕ) (s : GameSession)
      → SoundWithin n s
      → NeverThrows (SoundWithin n) (apply_action shuffle fuel connection action amount s)
  unfolding apply_action
  apply_action-SoundWithin n connection action amount s h =
      elim (Option-cases (s.connection_map connection)) [
        | inl e ↦ rw (e, apply_action) h
        | inr (current, e) ↦
            rw (e, apply_action)
              (elim (Bool-cases (player_at s s.current_player_index == current)) [
                | inl turn ↦ rw turn (act current (in_turn-elem n current s turn h))
                | inr other ↦ rw other (SoundWithin-effects n s s.bankrolls _ h)
              ])
      ]
    where
      act :
          (current : ℕ)
          → elem current s.players ≡ true
          → NeverThrows (SoundWithin n) (elim (perform action amount current s) [
            | refused code ↦ returns (emit (send_message current (error_reply code)) s)
            | accepted s' ↦ after_action shuffle fuel action amount current s'
          ])
      act current here =
          settle (perform action amount current s)
            (perform-KeepsSound n action amount current s here h)
        where
          settle :
              (attempt : Attempt)
              → KeepsSound n attempt
              → NeverThrows (SoundWithin n) (elim attempt [
                | refused code ↦ returns (emit (send_message current (error_reply code)) s)
                | accepted s' ↦ after_action shuffle fuel action amount current s'
              ])
          settle (refused code) k = SoundWithin-effects n s s.bankrolls _ h
          settle (accepted s') k = after_action-SoundWithin n action amount current s' k
