-- ===== src/GameSession/Waiting.antt =====
-- A round that still waits for a player (`count_active_players`, `is_round_complete`,
-- `advance_to_next_player` and `ask_current_player` of game_session.cpp).
use ascii_poker.Prelude.{
  ℕ, ◌≤◌, ◌<◌, ◌≡◌, ◌≢◌, sym, ap, ◌∙◌, subst, Bool, true, false, not, List, [], ◌∷◌, length, elem,
  All, keep_if, arith, leb, ◌==◌, ℕ_discrete, at_key, value_or_0,
}
use ascii_poker.Protocol.{your_turn}
use ascii_poker.GameSession.State.{GameSession, returns, emit, send_message}
use ascii_poker.GameSession.Seats.{
  player_at, can_player_act, count_active_players, advance_to_next_player, round_complete_loop,
  is_round_complete,
}
use ascii_poker.GameSession.Notify.{turn_offer}
use ascii_poker.GameSession.Turn.{advance-acts}
use ascii_poker.GameSession.Seated.{HasSeat, elem-get_or}
use ascii_poker.GameSession.Opening.{SoundWithin}

-- Two players who differ and have not folded.
live_one :
    (f : ℕ → Bool) (q : ℕ) (ps : List ℕ) → elem q ps ≡ true → f q ≡ true → 1 ≤ length (keep_if f ps)
live_one f q [] here k = absurd (cc)
live_one f q (x ∷ ps) here k = elim (ℕ_discrete x q) [
  | yes same ↦ let kept : f x ≡ true = ap f same ∙ k in ground arith
  | no other ↦ ground (arith, live_one f q ps)
]

live_two :
    (f : ℕ → Bool) (p q : ℕ) (ps : List ℕ)
    → elem p ps ≡ true
    → elem q ps ≡ true
    → (q == p) ≡ false
    → f p ≡ true
    → f q ≡ true
    → 2 ≤ length (keep_if f ps)
live_two f p q [] here there other k l = absurd (cc)
live_two f p q (x ∷ ps) here there other k l = elim (ℕ_discrete x p) [
  | yes same ↦ let kept : f x ≡ true = ap f same ∙ k in ground (arith, live_one f q ps)
  | no differs ↦ elim (ℕ_discrete x q) [
    | yes same ↦ let kept : f x ≡ true = ap f same ∙ l in ground (arith, live_one f p ps)
    | no differs' ↦ ground (arith, live_two f p q ps)
  ]
]

-- A round is not complete while a player who can act has bet less than the bet to match.
round_complete_loop-behind :
    (s : GameSession) (q : ℕ) (ps : List ℕ)
    → All (HasSeat s.chips s.round_bets s.hands) ps
    → elem q ps ≡ true
    → can_player_act s q ≡ true
    → at_key s.round_bets q < s.current_bet
    → round_complete_loop s ps ≡ returns false
unfolding round_complete_loop at_key
round_complete_loop-behind s q [] seats here acts behind = absurd (cc)
round_complete_loop-behind s q (p ∷ ps) seats here acts behind = elim (ℕ_discrete p q) [
  | yes same ↦
      let acts' : can_player_act s p ≡ true = ap (can_player_act s) same ∙ acts in
      let behind' : value_or_0 (s.round_bets p) < s.current_bet =
        subst (λ (k : ℕ). value_or_0 (s.round_bets k) < s.current_bet) (sym same) behind in
      let seat = seats.0.1 in ground arith
  | no other ↦
      let rest = round_complete_loop-behind s q ps seats.1 (ground arith) acts behind in
      let seat = seats.0.1 in ground arith
]

-- Two players who differ sit at the table, can act, and one has bet less than the bet to match.
pub record IsOpen (p q j n : ℕ) (s : GameSession) : Type 0 where
  pub sound : SoundWithin n s
  pub seated : elem p s.players ≡ true
  pub at_seat : player_at s j ≡ q
  pub seat : j < length s.players
  pub differs : (q == p) ≡ false
  pub in_turn : player_at s s.current_player_index ≡ p
  pub live : s.folded_players p ≡ false
  pub acts : can_player_act s q ≡ true
  pub behind : at_key s.round_bets q < s.current_bet

module _ (p q j n : ℕ) (s : GameSession) (h : IsOpen p q j n s) where
  other_seated : elem q s.players ≡ true
  other_seated =
      subst (λ (k : ℕ). elem k s.players ≡ true) h.at_seat (elem-get_or s.players j h.seat)

  pub two_live : 2 ≤ count_active_players s
  unfolding count_active_players
  two_live =
      let acts = h.acts in
      let live = h.live in
      live_two (λ k. not (s.folded_players k)) p q s.players h.seated other_seated h.differs
        (ground arith) (ground arith)

  -- The player to whom the turn is passed can act.
  pub next_acts :
      let t = advance_to_next_player s in
      can_player_act t (player_at t t.current_player_index) ≡ true
  next_acts =
      advance-acts s j h.seat h.sound.0.current not_same (ap (can_player_act s) h.at_seat ∙ h.acts)
    where
      not_same : j ≢ s.current_player_index
      not_same same =
          let same_player = sym h.at_seat ∙ ap (player_at s) same ∙ h.in_turn in
          let differs = h.differs in ground arith

  pub not_complete : is_round_complete (advance_to_next_player s) ≡ returns false
  unfolding is_round_complete advance_to_next_player count_active_players
  not_complete =
      let many = two_live in
      let few : leb (count_active_players s) 1 ≡ false = ground arith in
      rw few (
        round_complete_loop-behind (advance_to_next_player s) q s.players h.sound.0.seated
          other_seated h.acts h.behind)

-- The next player is asked.
abbrev pub asked : GameSession → GameSession
asked s =
    let next = player_at s s.current_player_index in
    emit (send_message next (your_turn (turn_offer s next))) s
