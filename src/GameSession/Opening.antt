-- ===== src/GameSession/Opening.antt =====
-- From a table to the first turn of a hand: the cards, the blinds, the repository.
use Prim.Native.String.{String}
use ascii_poker.Prelude.{
  ℕ, ◌≤◌, ◌<◌, ◌≡◌, refl, ap, ◌∙◌, true, List, [], ◌∷◌, length, elem, All, if_elim, sum_of, arith,
  at_key, value_or_0, u32_max, Option, none, some,
}
use ascii_poker.Card.{Card}
use ascii_poker.Deck.{new_deck, IsShuffle}
use ascii_poker.Deck.Laws.{length-new_deck}
use ascii_poker.Protocol.{GamePhase, pre_flop}
use ascii_poker.GameSession.State.{GameSession, Effect, small_blind_size, big_blind_size}
use ascii_poker.GameSession.Seats.{sb_index, bb_index, player_at, first_to_act_preflop}
use ascii_poker.GameSession.Chips.{
  contribute, post_blinds, begin_betting_round, persist_found, persist_player_chips,
  persist_chips_of, persist_all_chips,
}
use ascii_poker.GameSession.Phases.{stack_of, reset_table, open_betting}
use ascii_poker.GameSession.Table.{Distinct, sum_at, table_total}
use ascii_poker.GameSession.Betting.{contribute-IsBalanced}
use ascii_poker.GameSession.Seated.{HasSeat, elem-get_or}
use ascii_poker.GameSession.Sound.{
  IsSound, cards_needed, most_players, blinds-lt, contribute-IsSound, contribute-SameSeats,
}
use ascii_poker.GameSession.NewHand.{Deals}

-- What a session needs for a new hand: 1 to 23 players, none twice, with stacks (or buy-ins, for
-- those without one) that together fit a uint32_t, and indices of the table.
pub record IsTable (s : GameSession) : Type 0 where
  pub distinct : Distinct s.players
  pub funded : sum_of (stack_of s) s.players < u32_max
  pub nonempty : 0 < length s.players
  pub few : length s.players ≤ most_players
  pub dealer : s.dealer_index < length s.players
  pub current : s.current_player_index < length s.players

-- The state is sound and has at most `n` chips on the table.
abbrev pub SoundWithin : ℕ → GameSession → Type 0
SoundWithin n t = IsSound t × (table_total t ≤ n)

cards_needed-le : (p : GamePhase) → cards_needed p ≤ 5
cards_needed-le pre_flop = omega arith
cards_needed-le _ = omega arith

module _ (P : ℕ → Type 0) where
  pub All-intro : (ps : List ℕ) → ((p : ℕ) → elem p ps ≡ true → P p) → All P ps
  All-intro [] h = tt
  All-intro (p ∷ ps) h = (h p (ground arith), All-intro ps (λ q e. h q (ground arith)))

sum_at_pointwise :
    (m : ℕ → Option ℕ) (f : ℕ → ℕ) (ps : List ℕ)
    → ((p : ℕ) → elem p ps ≡ true → m p ≡ some (f p))
    → sum_at m ps ≡ sum_of f ps
unfolding at_key
sum_at_pointwise m f [] h = refl
sum_at_pointwise m f (p ∷ ps) h =
    let here : value_or_0 (m p) ≡ f p = ap value_or_0 (h p (ground arith)) in
    omega (arith, sum_at_pointwise m f ps (λ q e. h q (ground arith)))

sum_of-zero : (ps : List ℕ) → sum_of (λ (p : ℕ). 0) ps ≡ 0
sum_of-zero [] = refl
sum_of-zero (p ∷ ps) = omega (arith, sum_of-zero ps)

module _ (shuffle : ℕ → List Card → List Card) (perm : IsShuffle shuffle) where
  pub deck_of_52 : (s : GameSession) → length (reset_table shuffle s).deck.cards ≡ 52
  unfolding reset_table
  deck_of_52 s = perm.same_size s.seed new_deck.cards ∙ length-new_deck

  -- The deal leaves a sound session with the players' stacks, and no chips in the pot.
  pub Deals-SoundWithin :
      (s t : GameSession)
      → IsTable s
      → Deals (reset_table shuffle s) s.players t
      → SoundWithin (sum_of (stack_of s) s.players) t
  unfolding reset_table
  Deals-SoundWithin s t table k =
      let ps = s.players in
      let players = ap (λ (x : GameSession). x.players) k.frame in
      let pot = ap (λ (x : GameSession). x.pot) k.frame in
      let dealer = ap (λ (x : GameSession). x.dealer_index) k.frame in
      let current = ap (λ (x : GameSession). x.current_player_index) k.frame in
      let chips : sum_at t.chips ps ≡ sum_of (stack_of s) ps =
        sum_at_pointwise t.chips (stack_of s) ps (λ p e. (k.dealt p e).stack) in
      let put_in : sum_at t.total_contributed ps ≡ 0 =
        sum_at_pointwise t.total_contributed (λ _. 0) ps (λ p e. (k.dealt p e).put_in)
        ∙ sum_of-zero ps in
      let total : table_total t ≡ sum_of (stack_of s) ps =
        rw (players, pot) (omega (arith, chips)) in
      let funded = table.funded in
      let seats =
        All-intro (HasSeat t.chips t.round_bets t.hands) ps
          (λ p e. let d = k.dealt p e in (rw d.stack refl, rw d.bet refl, d.hand)) in
      let few = table.few in
      let taken = k.taken in
      (
        record {
          balanced = record {
            distinct = rw players table.distinct;
            bounded = omega arith;
            contributed_within = rw (players, pot) (omega (arith, put_in));
          };
          seated = rw players seats;
          nonempty = rw players table.nonempty;
          few = rw players few;
          dealer = rw (players, dealer) table.dealer;
          current = rw (players, current) table.current;
          stocked = omega (arith, cards_needed-le t.phase, deck_of_52 s);
        },
        omega arith,
      )

pub contribute-SoundWithin :
    (n player amount : ℕ) (s : GameSession)
    → elem player s.players ≡ true
    → SoundWithin n s
    → SoundWithin n (contribute player amount s).0
contribute-SoundWithin n player amount s here (h, le) =
    let moved = contribute-IsBalanced player amount s here h.balanced in
    (contribute-IsSound player amount s here h, omega (arith, moved.1))

-- Members that the invariant does not read.
pub SoundWithin-effects :
    (n : ℕ) (s : GameSession) (b : String → Option ℕ) (es : List Effect)
    → SoundWithin n s
    → SoundWithin n (record s { bankrolls = b; effects = es })
SoundWithin-effects n s b es (h, le) = (ground arith, le)

pub persist_player-SoundWithin :
    (n p : ℕ) (s : GameSession) → SoundWithin n s → SoundWithin n (persist_player_chips p s)
unfolding persist_player_chips
persist_player-SoundWithin n p s h = if_elim (SoundWithin n) s.has_repository (found (s.chips p)) h
  where
    found : (o : Option ℕ) → SoundWithin n (persist_found p o s)
    found none = h
    found (some amount) = SoundWithin-effects n s _ _ h

persist_chips_of-SoundWithin :
    (n : ℕ) (ps : List ℕ) (s : GameSession)
    → SoundWithin n s
    → SoundWithin n (persist_chips_of ps s)
unfolding persist_chips_of
persist_chips_of-SoundWithin n [] s h = h
persist_chips_of-SoundWithin n (p ∷ ps) s h =
    persist_chips_of-SoundWithin n ps (persist_player_chips p s)
      (persist_player-SoundWithin n p s h)

-- The blinds are players of the table, also after the first has been posted.
post_blinds-SoundWithin :
    (n : ℕ) (s : GameSession)
    → SoundWithin n s
    → SoundWithin n (post_blinds s) × ((post_blinds s).deck ≡ s.deck)
unfolding post_blinds
post_blinds-SoundWithin n s h =
    let seats = blinds-lt s h.0.dealer in
    let sb = player_at s (sb_index s) in
    let bb = player_at s (bb_index s) in
    let t = (contribute sb small_blind_size s).0 in
    let same = contribute-SameSeats sb small_blind_size s in
    let sb_here = elem-get_or s.players (sb_index s) seats.0 in
    let bb_here : elem bb t.players ≡ true =
      rw same.players (elem-get_or s.players (bb_index s) seats.1) in
    let first = contribute-SoundWithin n sb small_blind_size s sb_here h in
    let (sound, le) = contribute-SoundWithin n bb big_blind_size t bb_here first in
    let same' = contribute-SameSeats bb big_blind_size t in
    ((ground arith, le), same'.deck ∙ same.deck)

-- With the cards for a hand in the deck, the blinds, the first turn and the repository keep the
-- invariant and the chips.
pub open_betting-SoundWithin :
    (n : ℕ) (s : GameSession)
    → 5 ≤ length s.deck.cards
    → SoundWithin n s
    → SoundWithin n (open_betting s)
unfolding open_betting persist_all_chips
open_betting-SoundWithin n s enough h =
    let ((sound, le), deck) = post_blinds-SoundWithin n s h in
    let t = begin_betting_round (post_blinds s) in
    let lt = (blinds-lt t sound.dealer).2 in
    let enough' : 5 ≤ length (post_blinds s).deck.cards = rw deck enough in
    let u = record t { current_player_index = first_to_act_preflop t; phase = pre_flop } in
    persist_chips_of-SoundWithin n u.players u (ground arith, le)
