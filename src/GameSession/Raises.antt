-- ===== src/GameSession/Raises.antt =====
-- A raise, from the action of a connection to the question to the next player (`apply_action` of
-- game_session.cpp).
use ascii_poker.Prelude.{
  ℕ, suc, ◌+◌, ◌≤◌, ◌<◌, ◌≡◌, refl, subst, inl, inr, ◌⊎◌, true, false, List, some, length, elem,
  arith, ◌==◌, at_key, u32_max, ==_iff,
}
use ascii_poker.Card.{Card}
use ascii_poker.Protocol.{ErrorCode, raise, error_reply}
use ascii_poker.GameSession.State.{GameSession, Outcome, returns, emit, send_message}
use ascii_poker.GameSession.Seats.{player_at, can_player_act}
use ascii_poker.GameSession.Moves.{
  Attempt, refused, accepted, raise_to, perform, after_action, apply_action,
}
use ascii_poker.GameSession.Betting.{
  IsAllowedRaise, RaisesTo, IsRefused, raise_to_lem, Conserves, perform-Conserves,
}
use ascii_poker.GameSession.Outcomes.{Returns}
use ascii_poker.GameSession.Seated.{elem-get_or}
use ascii_poker.GameSession.Opening.{SoundWithin}
use ascii_poker.GameSession.Turns.{KeepsSound, perform-KeepsSound}
use ascii_poker.GameSession.Waiting.{IsOpen}
use ascii_poker.GameSession.Announced.{
  LeavesOthers, AcceptedLeaves, raise_to-LeavesOthers, IsRaised, asked-IsRaised, after_action-asked,
}

-- A refused raise: an error for the player, and nothing else.
abbrev pub IsTurnedDown : ℕ → GameSession → GameSession → Type 0
IsTurnedDown p s t = (code : ErrorCode) × (t ≡ emit (send_message p (error_reply code)) s)

-- Before a raise to `amount` by player `p`: the state is sound with at most `n` chips, `p` is in turn
-- and has not folded, and has bet no more than the bet to match; the sums stay below 2^32 - 1; and
-- player `q` at seat `j`, another one, can act and has bet no more than the bet to match either.
pub record IsRaiser (amount p q j n : ℕ) (s : GameSession) : Type 0 where
  pub sound : SoundWithin n s
  pub in_turn : player_at s s.current_player_index ≡ p
  pub live : s.folded_players p ≡ false
  pub within : at_key s.round_bets p ≤ s.current_bet
  pub word : amount ≤ u32_max
  pub small : at_key s.round_bets p + at_key s.chips p < u32_max
  pub headroom : s.current_bet + s.last_raise_increment < u32_max
  pub seat : j < length s.players
  pub at_seat : player_at s j ≡ q
  pub differs : (q == p) ≡ false
  pub acts : can_player_act s q ≡ true
  pub covered : at_key s.round_bets q ≤ s.current_bet

module _ (amount p q j n : ℕ) (s : GameSession) (h : IsRaiser amount p q j n s) where
  raiser-elem : elem p s.players ≡ true
  raiser-elem =
      subst (λ (k : ℕ). elem k s.players ≡ true) h.in_turn
        (elem-get_or s.players s.current_player_index h.sound.0.current)

  IsOpen-raised :
      (t : GameSession)
      → IsAllowedRaise amount p s
      → SoundWithin n t
      → t.current_bet ≡ amount
      → LeavesOthers p s t
      → IsOpen p q j n t
  unfolding at_key
  IsOpen-raised t allowed sound bet (players, folded, turn, names, effects, others) =
      let (all_in, same_bet) = others q h.differs in
      let covered = h.covered in
      let acts = h.acts in
      record {
        sound = sound;
        seated = rw players raiser-elem;
        at_seat = rw players h.at_seat;
        seat = rw players h.seat;
        differs = h.differs;
        in_turn = rw (players, turn) h.in_turn;
        live = rw folded h.live;
        acts = rw (folded, all_in) acts;
        behind = rw (same_bet, bet) (omega arith);
      }

  module _ (shuffle : ℕ → List Card → List Card) (fuel c : ℕ)
      (mapped : s.connection_map c ≡ some p) where
    raised :
        (t : GameSession)
        → raise_to amount p s ≡ accepted t
        → IsAllowedRaise amount p s
        → RaisesTo amount p s (accepted t)
        → Returns (IsRaised amount p s) (after_action shuffle (suc fuel) raise (some amount) p t)
    unfolding perform
    raised t e allowed numbers =
        let kept : Conserves s (accepted t) =
          subst (Conserves s) e
            (perform-Conserves raise (some amount) p s raiser-elem h.sound.0.balanced) in
        let sound : SoundWithin n t =
          subst (KeepsSound n) e
            (perform-KeepsSound n raise (some amount) p s raiser-elem h.sound) in
        let others : LeavesOthers p s t =
          subst (AcceptedLeaves p s) e (raise_to-LeavesOthers amount p s) in
        let ready = IsOpen-raised t allowed sound numbers.0 others in
        rw (after_action-asked p q j n amount s t ready numbers kept.1 others shuffle fuel)
          (asked-IsRaised p q j n amount s t ready numbers kept.1 others)

    abbrev after_raise : Attempt → Outcome GameSession
    after_raise attempt = elim attempt [
      | refused code ↦ returns (emit (send_message p (error_reply code)) s)
      | accepted t ↦ after_action shuffle (suc fuel) raise (some amount) p t
    ]

    pub apply_action-raise :
        (IsAllowedRaise amount p s
          × Returns (IsRaised amount p s) (apply_action shuffle (suc fuel) c raise (some amount) s))
        ⊎ ((¬ IsAllowedRaise amount p s)
            × Returns (IsTurnedDown p s) (apply_action shuffle (suc fuel) c raise (some amount) s))
    unfolding apply_action perform
    apply_action-raise =
        let turn : (player_at s s.current_player_index == p) ≡ true =
          (==_iff (player_at s s.current_player_index) p).1 h.in_turn in
        rw (mapped, apply_action)
          (rw turn (
            settle (raise_to amount p s) refl
              (raise_to_lem amount p s h.word h.small h.headroom h.within)))
      where
        settle :
            (attempt : Attempt)
            → raise_to amount p s ≡ attempt
            → (IsAllowedRaise amount p s × RaisesTo amount p s attempt)
              ⊎ ((¬ IsAllowedRaise amount p s) × IsRefused attempt)
            → (IsAllowedRaise amount p s × Returns (IsRaised amount p s) (after_raise attempt))
              ⊎ ((¬ IsAllowedRaise amount p s) × Returns (IsTurnedDown p s) (after_raise attempt))
        settle (refused code) e (inl (allowed, numbers)) = absurd numbers
        settle (refused code) e (inr (barred, k)) = inr (barred, (code, refl))
        settle (accepted t) e (inl (allowed, numbers)) = inl (allowed, raised t e allowed numbers)
        settle (accepted t) e (inr (barred, k)) = absurd k
