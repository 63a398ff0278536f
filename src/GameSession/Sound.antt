-- ===== src/GameSession/Sound.antt =====
-- The invariant of a session, and the operations that keep it without ending the hand.
use ascii_poker.Prelude.{
  ℕ, zero, suc, ◌+◌, ◌%◌, ◌≤◌, ◌<◌, ◌≡◌, refl, ap, inl, inr, true, List, [], ◌∷◌, ◌++◌, length,
  elem, All, arith, leb, if_elim, length-append, assign, some,
}
use ascii_poker.Deck.Laws.{deal_lem}
use ascii_poker.Protocol.{GamePhase, pre_flop, flop, turn, river, showdown}
use ascii_poker.GameSession.State.{GameSession, returns}
use ascii_poker.GameSession.Seats.{
  sb_index, bb_index, postflop_loop, first_to_act_postflop, first_to_act_preflop, next_active_loop,
  find_next_active_player, advance_to_next_player, round_complete_loop, is_round_complete,
  count_active_players,
}
use ascii_poker.GameSession.Chips.{contribute}
use ascii_poker.GameSession.Phases.{deal_community}
use ascii_poker.GameSession.Table.{IsBalanced}
use ascii_poker.GameSession.Betting.{contribute-IsBalanced}
use ascii_poker.GameSession.Outcomes.{Returns}
use ascii_poker.GameSession.Seated.{HasSeat, IsSeated, is_some-assign}

-- The cards that the later phases of a hand still take from the deck.
abbrev pub cards_needed : GamePhase → ℕ
cards_needed pre_flop = 5
cards_needed flop = 2
cards_needed turn = 1
cards_needed river = 0
cards_needed showdown = 0

-- With 23 players a deck has the cards for all hands and the board.
abbrev pub most_players : ℕ
most_players = 23

pub record IsSound (s : GameSession) : Type 0 where
  pub balanced : IsBalanced s
  pub seated : IsSeated s
  pub nonempty : 0 < length s.players
  pub few : length s.players ≤ most_players
  pub dealer : s.dealer_index < length s.players
  pub current : s.current_player_index < length s.players
  pub stocked : cards_needed s.phase ≤ length s.deck.cards

mod-lt' : (a n : ℕ) → 0 < n → a % n < n
mod-lt' a n h = omega arith

next_active_loop-lt :
    (s : GameSession) (rounds idx : ℕ)
    → 0 < length s.players
    → idx < length s.players
    → next_active_loop s rounds idx < length s.players
unfolding next_active_loop
next_active_loop-lt s zero idx n h = h
next_active_loop-lt s (suc rounds) idx n h =
    if_elim (λ (i : ℕ). i < length s.players) _
      (next_active_loop-lt s rounds ((idx + 1) % length s.players) n (mod-lt' (idx + 1) _ n)) h

pub find_next_active_player-lt :
    (s : GameSession) → 0 < length s.players → find_next_active_player s < length s.players
unfolding find_next_active_player
find_next_active_player-lt s n =
    if_elim (λ (i : ℕ). i < length s.players) _ n
      (next_active_loop-lt s (length s.players) ((s.current_player_index + 1) % length s.players) n
        (mod-lt' (s.current_player_index + 1) _ n))

postflop_loop-lt :
    (s : GameSession) (start rounds idx : ℕ)
    → s.dealer_index < length s.players
    → idx < length s.players
    → postflop_loop s start rounds idx < length s.players
unfolding postflop_loop
postflop_loop-lt s start zero idx d h = d
postflop_loop-lt s start (suc rounds) idx d h =
    if_elim (λ (i : ℕ). i < length s.players) _ h
      (if_elim (λ (i : ℕ). i < length s.players) _ d
        (postflop_loop-lt s start rounds ((idx + 1) % length s.players) d
          (mod-lt' (idx + 1) _ (omega arith))))

pub first_to_act_postflop-lt :
    (s : GameSession)
    → s.dealer_index < length s.players
    → first_to_act_postflop s < length s.players
unfolding first_to_act_postflop
first_to_act_postflop-lt s d =
    postflop_loop-lt s _ (length s.players) _ d (mod-lt' (s.dealer_index + 1) _ (omega arith))

-- The seats of the blinds, and of the first to act, are at the table.
pub blinds-lt :
    (s : GameSession)
    → s.dealer_index < length s.players
    → (sb_index s < length s.players)
      × (bb_index s < length s.players)
      × (first_to_act_preflop s < length s.players)
unfolding sb_index bb_index first_to_act_preflop
blinds-lt s d =
    let n : 0 < length s.players = omega arith in
    ground (
      arith,
      mod-lt' (s.dealer_index + 1) (length s.players) n,
      mod-lt' (s.dealer_index + 2) (length s.players) n,
      mod-lt' ((s.dealer_index + 1) % length s.players + 1) (length s.players) n,
      mod-lt' ((s.dealer_index + 2) % length s.players + 1) (length s.players) n,
    )

pub advance-IsSound : (s : GameSession) → IsSound s → IsSound (advance_to_next_player s)
unfolding advance_to_next_player
advance-IsSound s h = record {
  balanced = record {
    distinct = h.balanced.distinct;
    bounded = h.balanced.bounded;
    contributed_within = h.balanced.contributed_within;
  };
  seated = h.seated;
  nonempty = h.nonempty;
  few = h.few;
  dealer = h.dealer;
  current = find_next_active_player-lt s h.nonempty;
  stocked = h.stocked;
}

round_complete_loop-Returns :
    (s : GameSession) (ps : List ℕ)
    → All (HasSeat s.chips s.round_bets s.hands) ps
    → Returns (λ _. Unit {0}) (round_complete_loop s ps)
unfolding round_complete_loop
round_complete_loop-Returns s [] h = tt
round_complete_loop-Returns s (p ∷ ps) h =
    ground (arith, h.0.1, round_complete_loop-Returns s ps h.1)

pub is_round_complete-Returns :
    (s : GameSession) → IsSeated s → Returns (λ _. Unit {0}) (is_round_complete s)
unfolding is_round_complete
is_round_complete-Returns s h =
    if_elim (Returns (λ _. Unit {0})) (leb (count_active_players s) 1) {x = returns true} (tt {0})
      (round_complete_loop-Returns s s.players h)

-- The members that the invariant reads, but for the chips.
pub record SameSeats (s t : GameSession) : Type 0 where
  pub players : t.players ≡ s.players
  pub hands : t.hands ≡ s.hands
  pub dealer : t.dealer_index ≡ s.dealer_index
  pub current : t.current_player_index ≡ s.current_player_index
  pub deck : t.deck ≡ s.deck
  pub phase : t.phase ≡ s.phase

pub IsSound-of :
    (s t : GameSession)
    → SameSeats s t
    → IsBalanced t
    → All (HasSeat t.chips t.round_bets s.hands) s.players
    → IsSound s
    → IsSound t
IsSound-of s t e b seats h = record {
  balanced = b;
  seated = rw (e.players, e.hands) seats;
  nonempty = rw e.players h.nonempty;
  few = rw e.players h.few;
  dealer = rw (e.players, e.dealer) h.dealer;
  current = rw (e.players, e.current) h.current;
  stocked = rw (e.deck, e.phase) h.stocked;
}

HasSeat-assign :
    (s : GameSession) (w v u : ℕ) (ps : List ℕ)
    → All (HasSeat s.chips s.round_bets s.hands) ps
    → All (HasSeat (assign s.chips w (some v)) (assign s.round_bets w (some u)) s.hands) ps
HasSeat-assign s w v u [] h = tt
HasSeat-assign s w v u (p ∷ ps) h = (
  (is_some-assign s.chips w v p h.0.0, is_some-assign s.round_bets w u p h.0.1, h.0.2),
  HasSeat-assign s w v u ps h.1,
)

pub contribute-SameSeats :
    (player amount : ℕ) (s : GameSession) → SameSeats s (contribute player amount s).0
unfolding contribute
contribute-SameSeats player amount s = ground arith

contribute_seats :
    (player amount : ℕ) (s : GameSession)
    → IsSeated s
    → let t = (contribute player amount s).0 in All (HasSeat t.chips t.round_bets s.hands) s.players
unfolding contribute
contribute_seats player amount s h =
    let seats = λ (v u : ℕ). HasSeat-assign s player v u s.players h in
    if_elim (λ (t : GameSession). All (HasSeat t.chips t.round_bets s.hands) s.players) _
      (seats _ _) (seats _ _)

-- A contribution keeps the invariant.
pub contribute-IsSound :
    (player amount : ℕ) (s : GameSession)
    → elem player s.players ≡ true
    → IsSound s
    → IsSound (contribute player amount s).0
contribute-IsSound player amount s here h =
    IsSound-of s _ (contribute-SameSeats player amount s)
      (contribute-IsBalanced player amount s here h.balanced).0
      (contribute_seats player amount s h.seated) h

-- Cards dealt from the deck leave the invariant of the later phase.
pub deal_community_lem :
    (n : ℕ) (s : GameSession)
    → n ≤ length s.deck.cards
    → (t : GameSession) × (deal_community n s ≡ returns t)
      × (length t.deck.cards + n ≡ length s.deck.cards)
      × (t ≡ record s { deck = t.deck; community_cards = t.community_cards })
unfolding deal_community
deal_community_lem n s h = elim (deal_lem n s.deck) [
  | inl (hand, rest, e, parts, size) ↦ (
    record s { deck = record { cards = rest }; community_cards = s.community_cards ++ hand },
    rw (e, deal_community),
    omega (arith, ap length parts, length-append hand rest),
    refl,
  )
  | inr (e, short) ↦ absurd (omega arith)
]
