-- ===== src/GameSession/Calls.antt =====
-- Steps on the way through a hand, and the invariant: messages, payment, a new phase, cleared bets,
-- cards for the board.
use ascii_poker.Prelude.{
  ℕ, zero, ◌+◌, ◌≤◌, ◌<◌, ◌≡◌, refl, ap, sym, subst, true, List, [], ◌∷◌, length, All, sum_of,
  arith, at_key, u32_max, Option, none, some, ◌==◌, empty_map, ℕ_discrete,
}
use mathlib.Core.Option
use ascii_poker.Protocol.{GamePhase}
use ascii_poker.SidePots.Conservation.{highest_live, capped-IsCovered}
use ascii_poker.GameSession.State.{GameSession, Outcome, ◌>>=◌}
use ascii_poker.GameSession.Notify.{broadcast_state}
use ascii_poker.GameSession.Award.{award_all_pots, pot_states}
use ascii_poker.GameSession.Phases.{stack_of, deal_community, clear_bets}
use ascii_poker.GameSession.Table.{sum_at, IsBalanced}
use ascii_poker.GameSession.Outcomes.{Returns, NeverThrows, Returns-NeverThrows->>=, Returns-weaken}
use ascii_poker.GameSession.Seated.{HasSeat, SameTable, broadcast_state-Returns, is_some}
use ascii_poker.GameSession.Pots.{IsPaidOut, payable, award_all_pots-IsPaidOut, pot_states_total}
use ascii_poker.GameSession.Sound.{cards_needed, deal_community_lem}
use ascii_poker.GameSession.Opening.{IsTable, SoundWithin, SoundWithin-effects}

-- A message changes nothing that the invariant reads.
pub SoundWithin-SameTable :
    (n : ℕ) (s t : GameSession) → SameTable s t → SoundWithin n s → SoundWithin n t
SoundWithin-SameTable n s t e h =
    subst (SoundWithin n) (sym e) (SoundWithin-effects n s s.bankrolls t.effects h)

-- A broadcast, and then a call that keeps the invariant.
pub broadcast_then :
    (n : ℕ) (f : GameSession → Outcome GameSession) (s : GameSession)
    → ((t : GameSession) → SoundWithin n t → NeverThrows (SoundWithin n) (f t))
    → SoundWithin n s
    → NeverThrows (SoundWithin n) (broadcast_state s >>= f)
broadcast_then n f s go h =
    Returns-NeverThrows->>= (SameTable s) (SoundWithin n) (broadcast_state s) f
      (broadcast_state-Returns s h.0.seated) (λ t same. go t (SoundWithin-SameTable n s t same h))

payable-le : (s : GameSession) → IsBalanced s → payable s ≤ s.pot
payable-le s b =
    let within = b.contributed_within in
    let capped = (capped-IsCovered (highest_live (pot_states s)) (pot_states s)).2 in
    omega (arith, pot_states_total s s.players)

sum_at-empty : (ps : List ℕ) → sum_at empty_map ps ≡ 0
unfolding at_key
sum_at-empty [] = refl
sum_at-empty (p ∷ ps) = omega (arith, sum_at-empty ps)

IsPaidOut-SoundWithin :
    (n : ℕ) (s t : GameSession) → SoundWithin n s → IsPaidOut s (payable s) t → SoundWithin n t
IsPaidOut-SoundWithin n s t (h, le) p =
    let e = p.repaid in
    let players = ap (λ (x : GameSession). x.players) e in
    let dealer = ap (λ (x : GameSession). x.dealer_index) e in
    let current = ap (λ (x : GameSession). x.current_player_index) e in
    let deck = ap (λ (x : GameSession). x.deck) e in
    let phase = ap (λ (x : GameSession). x.phase) e in
    let paid = payable-le s h.balanced in
    let sum = p.sum in
    let pot = p.pot_empty in
    let bounded = h.balanced.bounded in
    let put_in : sum_at t.total_contributed t.players ≡ 0 =
      rw p.contributed_empty (sum_at-empty t.players) in
    (
      record {
        balanced = record {
          distinct = rw players h.balanced.distinct;
          bounded = omega arith;
          contributed_within = omega (arith, put_in);
        };
        seated = p.seated;
        nonempty = rw players h.nonempty;
        few = rw players h.few;
        dealer = rw (players, dealer) h.dealer;
        current = rw (players, current) h.current;
        stocked = rw (deck, phase) h.stocked;
      },
      omega arith,
    )

-- Paying the pots makes no chips, unseats nobody, and returns.
pub award-players :
    (n : ℕ) (s : GameSession)
    → SoundWithin n s
    → Returns (λ t. SoundWithin n t × (t.players ≡ s.players)) (award_all_pots s)
award-players n s h = elim (ℕ_discrete s.pot 0) [
  | yes none_there ↦
      unfold award_all_pots in
      let no_pot : (s.pot == 0) ≡ true = ground arith in rw (no_pot, award_all_pots) (h, refl)
  | no some_pot ↦
      Returns-weaken (IsPaidOut s (payable s)) _ (award_all_pots s)
        (λ t p. (IsPaidOut-SoundWithin n s t h p, ap (λ (x : GameSession). x.players) p.repaid))
        (award_all_pots-IsPaidOut s h.0.balanced h.0.seated some_pot)
]

pub award-SoundWithin :
    (n : ℕ) (s : GameSession) → SoundWithin n s → Returns (SoundWithin n) (award_all_pots s)
award-SoundWithin n s h =
    Returns-weaken (λ t. SoundWithin n t × (t.players ≡ s.players)) (SoundWithin n)
      (award_all_pots s) (λ t k. k.0) (award-players n s h)

-- The stacks of a sound session are what its players bring to the next hand.
stacks_of_seated :
    (s : GameSession) (ps : List ℕ)
    → All (HasSeat s.chips s.round_bets s.hands) ps
    → sum_of (stack_of s) ps ≡ sum_at s.chips ps
unfolding at_key
stacks_of_seated s [] h = refl
stacks_of_seated s (p ∷ ps) h = let rest = stacks_of_seated s ps h.1 in ground (arith, h.0.0)

-- A sound session is a table for the next hand, with the players' stacks for their chips.
pub IsTable-of :
    (n : ℕ) (s : GameSession)
    → SoundWithin n s
    → (d : ℕ) → d < length s.players
    → IsTable (record s { dealer_index = d }) × (sum_of (stack_of s) s.players ≤ n)
IsTable-of n s (h, le) d lt =
    let stacks = stacks_of_seated s s.players h.seated in
    let bounded = h.balanced.bounded in
    let funded : sum_of (stack_of s) s.players < u32_max = omega arith in
    (
      record {
        distinct = h.balanced.distinct;
        funded = funded;
        nonempty = h.nonempty;
        few = h.few;
        dealer = lt;
        current = h.current;
      },
      omega arith,
    )

-- The phase and the turn move on, with the cards that the phase needs in the deck.
pub enter_phase :
    (n : ℕ) (s : GameSession) (p : GamePhase) (i : ℕ)
    → cards_needed p ≤ length s.deck.cards
    → i < length s.players
    → SoundWithin n s
    → SoundWithin n (record s { phase = p; current_player_index = i })
enter_phase n s p i cards lt (h, le) = (
  record {
    balanced = record {
      distinct = h.balanced.distinct;
      bounded = h.balanced.bounded;
      contributed_within = h.balanced.contributed_within;
    };
    seated = h.seated;
    nonempty = h.nonempty;
    few = h.few;
    dealer = h.dealer;
    current = lt;
    stocked = cards;
  },
  le,
)

clear_seats :
    (s : GameSession) (ps : List ℕ)
    → All (HasSeat s.chips s.round_bets s.hands) ps
    → All (HasSeat s.chips (clear_bets s).round_bets s.hands) ps
clear_seats s [] h = tt
clear_seats s (p ∷ ps) h = ((h.0.0, has (s.round_bets p) h.0.1, h.0.2), clear_seats s ps h.1)
  where
    has : (o : Option ℕ) → is_some o ≡ true → is_some (Option.map (λ (_ : ℕ). zero) o) ≡ true
    has none e = e
    has (some b) e = refl

pub clear_bets-SoundWithin :
    (n : ℕ) (s : GameSession) → SoundWithin n s → SoundWithin n (clear_bets s)
clear_bets-SoundWithin n s (h, le) = (
  record {
    balanced = record {
      distinct = h.balanced.distinct;
      bounded = h.balanced.bounded;
      contributed_within = h.balanced.contributed_within;
    };
    seated = clear_seats s s.players h.seated;
    nonempty = h.nonempty;
    few = h.few;
    dealer = h.dealer;
    current = h.current;
    stocked = h.stocked;
  },
  le,
)

-- Cards for the board, and the phase that they open.
pub deal_community-SoundWithin :
    (n k : ℕ) (s : GameSession) (p : GamePhase)
    → k + cards_needed p ≤ length s.deck.cards
    → SoundWithin n s
    → Returns (λ t. SoundWithin n (record t { phase = p })) (deal_community k s)
deal_community-SoundWithin n k s p enough (h, le) =
    let (t, e, size, same) = deal_community_lem k s (omega arith) in
    let cards : cards_needed p ≤ length t.deck.cards = omega arith in
    let goal : SoundWithin n
        (record s { deck = t.deck; community_cards = t.community_cards; phase = p }) =
      (
        record {
          balanced = record {
            distinct = h.balanced.distinct;
            bounded = h.balanced.bounded;
            contributed_within = h.balanced.contributed_within;
          };
          seated = h.seated;
          nonempty = h.nonempty;
          few = h.few;
          dealer = h.dealer;
          current = h.current;
          stocked = cards;
        },
        le,
      ) in
    rw e (subst (λ (x : GameSession). SoundWithin n (record x { phase = p })) (sym same) goal)
