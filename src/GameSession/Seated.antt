-- ===== src/GameSession/Seated.antt =====
-- The entries of the players in the maps that are read with `at`, and `broadcast_state`.
use ascii_poker.Prelude.{
  ℕ, zero, suc, ◌<◌, ◌≡◌, refl, subst, sym, Bool, true, false, List, [], ◌∷◌, Option, none, some,
  length, elem, get_or, All, arith, ℕ_discrete, ◌==◌, if◌then◌else◌, Map, assign, assign_lem,
}
use ascii_poker.Card.{Card}
use ascii_poker.Protocol.{ServerMessage}
use ascii_poker.GameSession.State.{GameSession}
use ascii_poker.GameSession.Notify.{
  send_each, player_state, player_states_from, build_player_states, broadcast_state, is_showdown,
  state_update,
}
use ascii_poker.GameSession.Outcomes.{Returns, Returns->>=}

-- Has the map an entry?
abbrev pub is_some : {V : Type 0} → Option V → Bool
is_some none = false
is_some (some v) = true

abbrev pub HasSeat : Map ℕ → Map ℕ → Map (List Card) → ℕ → Type 0
HasSeat chips bets hands p =
    (is_some (chips p) ≡ true) × (is_some (bets p) ≡ true) × (is_some (hands p) ≡ true)

-- Every player has a stack, a bet and a hand.
abbrev pub IsSeated : GameSession → Type 0
IsSeated s = All (HasSeat s.chips s.round_bets s.hands) s.players

module _ {ℓ} (P : ℕ → Type ℓ) where
  pub All_elem : (ps : List ℕ) (p : ℕ) → elem p ps ≡ true → All P ps → P p
  All_elem [] p h a = absurd (cc)
  All_elem (q ∷ ps) p h a = elim (ℕ_discrete p q) [
    | yes same ↦ subst P (sym same) a.0
    | no other ↦ All_elem ps p (ground arith) a.1
  ]

pub elem-get_or : (ps : List ℕ) (i : ℕ) → i < length ps → elem (get_or ps i 0) ps ≡ true
elem-get_or [] i h = absurd (omega arith)
elem-get_or (p ∷ ps) zero h = ground arith
elem-get_or (p ∷ ps) (suc i) h = ground (arith, elem-get_or ps i)

pub is_some-assign :
    {V : Type 0} (m : Map V) (k : ℕ) (v : V) (j : ℕ)
    → is_some (m j) ≡ true
    → is_some (assign m k (some v) j) ≡ true
is_some-assign m k v j h = rw (assign_lem m k (some v) j) (split (j == k))
  where
    split : (b : Bool) → is_some (if b then some v else m j) ≡ true
    split true = refl
    split false = h

player_state-Returns :
    (s : GameSession) (reveal : Bool) (i p : ℕ)
    → HasSeat s.chips s.round_bets s.hands p
    → Returns (λ _. Unit {0}) (player_state s reveal i p)
unfolding player_state
player_state-Returns s reveal i p h = ground arith

player_states_return :
    (s : GameSession) (reveal : Bool) (i : ℕ) (ps : List ℕ)
    → All (HasSeat s.chips s.round_bets s.hands) ps
    → Returns (λ _. Unit {0}) (player_states_from s reveal i ps)
unfolding player_states_from
player_states_return s reveal i [] h = tt
player_states_return s reveal i (p ∷ ps) h =
    Returns->>= (λ _. Unit {0}) (λ _. Unit {0}) (player_state s reveal i p) _
      (player_state-Returns s reveal i p h.0)
      λ state _.
        Returns->>= (λ _. Unit {0}) (λ _. Unit {0}) (player_states_from s reveal (suc i) ps) _
          (player_states_return s reveal (suc i) ps h.1) (λ states _. tt)

-- Only the effects change when messages are sent.
pub send_each_effects :
    (msg : ℕ → ServerMessage) (ps : List ℕ) (s : GameSession)
    → send_each msg ps s ≡ record s { effects = (send_each msg ps s).effects }
unfolding send_each
send_each_effects msg [] s = refl
send_each_effects msg (p ∷ ps) s = send_each_effects msg ps _

-- What a session is, but for the messages sent.
abbrev pub SameTable : GameSession → GameSession → Type 0
SameTable s t = t ≡ record s { effects = t.effects }

-- With everybody seated, the state of the table can be broadcast, and changes nothing else.
pub broadcast_state-Returns :
    (s : GameSession) → IsSeated s → Returns (SameTable s) (broadcast_state s)
unfolding broadcast_state build_player_states
broadcast_state-Returns s h =
    Returns->>= (λ _. Unit {0}) (SameTable s) (build_player_states s (is_showdown s.phase)) _
      (player_states_return s (is_showdown s.phase) 0 s.players h)
      (λ states _. send_each_effects (state_update s states) s.players s)
