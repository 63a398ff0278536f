-- ===== src/Room/Raises.antt =====
-- A raise in a room: `on_player_action` of room.cpp and `apply_action` of game_session.cpp.
use ascii_poker.Prelude.{ℕ, suc, ◌≡◌, refl, ◌⊎◌, inl, inr, arith, List, some}
use ascii_poker.Card.{Card}
use ascii_poker.Protocol.{raise}
use ascii_poker.GameSession.State.{GameSession, Outcome, returns, ◌>>=◌}
use ascii_poker.GameSession.Outcomes.{Returns, Returns->>=}
use ascii_poker.GameSession.Betting.{IsAllowedRaise}
use ascii_poker.GameSession.Announced.{IsRaised}
use ascii_poker.GameSession.Raises.{IsRaiser, IsTurnedDown, apply_action-raise}
use ascii_poker.Room.{Room, in_room, keep_session, on_player_action}

-- The room has a new session, of which `P` holds, and is otherwise the same, but for the random device
-- and the messages sent, which are those of the session.
abbrev pub Plays : (GameSession → Type 0) → Room → Room → Type 0
Plays P r t = (s : GameSession) × P s × (t ≡ keep_session r s)

IsRaiser-in_room :
    (amount p q j n : ℕ) (r : Room) (s : GameSession)
    → IsRaiser amount p q j n s
    → IsRaiser amount p q j n (in_room r s)
IsRaiser-in_room amount p q j n r s h = record {
  sound = ground (arith, h.sound);
  in_turn = h.in_turn;
  live = h.live;
  within = h.within;
  word = h.word;
  small = h.small;
  headroom = h.headroom;
  seat = h.seat;
  at_seat = h.at_seat;
  differs = h.differs;
  acts = h.acts;
  covered = h.covered;
}

module _ (shuffle : ℕ → List Card → List Card) (fuel : ℕ) where
  -- A game is on in a room, and through connection `c` player `p` asks in turn for a raise to a
  -- uint32_t `amount`, under the conditions of `IsRaiser`: the session is sound, `p` has not
  -- folded and has bet no more than the bet to match, the bet and stack of `p`, like the bet to
  -- match and the last increment, add up to less than 2^32 - 1, and another player `q`, who can
  -- act, has bet no more than the bet to match either. With fuel of at least 1 the call returns.
  -- If the amount is above the bet to match, by at least the last increment or all that `p` has,
  -- and no more than `p` has, the room goes on with a session where the bet to match and the bet
  -- of `p` are `amount`, `p` has paid the difference, the increment is what the bet to match rose
  -- by, the chips on the table are as many as before, and the turn is that of a player who can
  -- act; every player has been told of the raise to `amount`, and then the player in turn has been
  -- sent the offer. Otherwise the only effect is an error message to `p`.
  pub on_player_action-raise :
      (amount p q j n c : ℕ) (r : Room) (s : GameSession)
      → r.game_session ≡ some s
      → IsRaiser amount p q j n s
      → s.connection_map c ≡ some p
      → (IsAllowedRaise amount p s
          × Returns
              (Plays (IsRaised amount p (in_room r s)) r)
              (on_player_action shuffle (suc fuel) c raise (some amount) r))
        ⊎ ((¬ IsAllowedRaise amount p s)
            × Returns
                (Plays (IsTurnedDown p (in_room r s)) r)
                (on_player_action shuffle (suc fuel) c raise (some amount) r))
  unfolding on_player_action
  on_player_action-raise amount p q j n c r s playing h mapped =
      rw (playing, on_player_action)
        (elim (apply_action-raise amount p q j n (in_room r s)
          (IsRaiser-in_room amount p q j n r s h) shuffle fuel c mapped) [
            | inl (allowed, k) ↦ inl (allowed, play (IsRaised amount p (in_room r s)) _ k)
            | inr (barred, k) ↦ inr (barred, play (IsTurnedDown p (in_room r s)) _ k)
          ])
    where
      play :
          (P : GameSession → Type 0) (m : Outcome GameSession)
          → Returns P m
          → Returns (Plays P r) (m >>= λ s'. returns (keep_session r s'))
      play P m k = Returns->>= P (Plays P r) m _ k (λ s' k'. (s', k', refl))
