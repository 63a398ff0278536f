-- ===== src/GameSession/Pots.antt =====
-- The payment of all pots in `award_all_pots`.
use Prim.Native.String.{String}
use ascii_poker.Prelude.{
  List-cases, ◌≢◌, ℕ, ◌+◌, ◌<◌, ◌≡◌, refl, ap, sym, subst, inl, inr, true, false, List, [], ◌∷◌,
  map, length, get_or, All, sum_of, min, arith, ◌==◌, at_key, u32_max, length-map, if_elim, Option,
  none, some, empty_map,
}
use ascii_poker.SidePots.{SidePot, compute_side_pots}
use ascii_poker.SidePots.Conservation.{
  total_of, total_contributed, highest_live, total-compute_side_pots, total-compute_side_pots-le,
}
use ascii_poker.SidePots.Eligible.{Below, IsWinnable, compute_side_pots-IsWinnable}
use ascii_poker.GameSession.State.{GameSession, Effect}
use ascii_poker.GameSession.Seats.{player_at}
use ascii_poker.GameSession.Chips.{
  persist_found, persist_player_chips, persist_chips_of, persist_all_chips,
}
use ascii_poker.GameSession.Notify.{broadcast_state, broadcast_hand_result}
use ascii_poker.GameSession.Award.{
  Payout, find_winners_among, pay_pot, pay_pots, pot_states, announce, award_all_pots,
}
use ascii_poker.GameSession.Table.{Distinct, sum_at, IsBalanced}
use ascii_poker.GameSession.Outcomes.{Returns, Returns->>=}
use ascii_poker.GameSession.Seated.{
  HasSeat, IsSeated, elem-get_or, SameTable, broadcast_state-Returns, send_each_effects, is_some,
}
use ascii_poker.GameSession.Payment.{Repaid, Repaid-trans, InTable, PaidBy, pay_pot-PaidBy}
use ascii_poker.GameSession.Winners.{AreWinners, find_winners_among-AreWinners}

contenders-InTable :
    (s : GameSession) (players indices : List ℕ)
    → players ≡ s.players
    → Below (length s.players) indices
    → InTable s (map (λ i. get_or players i 0) indices)
contenders-InTable s players [] e h = tt
contenders-InTable s players (i ∷ is) e h =
    (rw e (elem-get_or s.players i h.0), contenders-InTable s players is e h.1)

seats_have_hands :
    (s t : GameSession) (ps : List ℕ)
    → t.hands ≡ s.hands
    → All (HasSeat t.chips s.round_bets s.hands) ps
    → All (λ p. is_some (t.hands p) ≡ true) ps
seats_have_hands s t [] e h = tt
seats_have_hands s t (p ∷ ps) e h = (rw e h.0.2, seats_have_hands s t ps e h.1)

module _ (s : GameSession) (distinct : Distinct s.players) where
  pay_winnable_pot :
      (n : ℕ) (pot : SidePot) (winners : List ℕ) (pay : Payout)
      → AreWinners s winners
      → sum_at s.chips s.players + n + pot.amount < u32_max
      → PaidBy s n pay.session
      → Returns (λ paid. PaidBy s (n + pot.amount) paid.session) (pay_pot pot winners pay)
  pay_winnable_pot n pot [] pay a small h = absurd (omega arith)
  pay_winnable_pot n pot (w ∷ ws) pay a small h =
      pay_pot-PaidBy s distinct n pot w ws pay a.0 small h

  winners_of_pot :
      (indices : List ℕ) (n : ℕ) (t : GameSession)
      → Below (length s.players) indices
      → 0 < length indices
      → PaidBy s n t
      → Returns (AreWinners s) (find_winners_among t (map (player_at t) indices))
  winners_of_pot [] n t b some_index h = absurd (omega arith)
  winners_of_pot (i ∷ is) n t b some_index h =
      let seats = ap (λ (x : GameSession). x.players) h.repaid in
      let hands = ap (λ (x : GameSession). x.hands) h.repaid in
      find_winners_among-AreWinners s t (seats_have_hands s t s.players hands h.seats)
        (player_at t i) (map (player_at t) is) (contenders-InTable s t.players (i ∷ is) seats b)

  -- All pots are paid out in full.
  pub pay_pots-PaidBy :
      (n : ℕ) (pots : List SidePot) (pay : Payout)
      → All (IsWinnable (length s.players)) pots
      → sum_at s.chips s.players + n + total_of pots < u32_max
      → PaidBy s n pay.session
      → Returns (λ paid. PaidBy s (n + total_of pots) paid.session) (pay_pots pots pay)
  unfolding pay_pots
  pay_pots-PaidBy n [] pay w small h = subst (λ (k : ℕ). PaidBy s k pay.session) (omega arith) h
  pay_pots-PaidBy n (pot ∷ pots) pay w small h =
      let total : n + pot.amount + total_of pots ≡ n + total_of (pot ∷ pots) = omega arith in
      subst (λ (k : ℕ). Returns (λ paid. PaidBy s k paid.session) (pay_pots (pot ∷ pots) pay)) total
        (Returns->>= (AreWinners s) (λ paid. PaidBy s (n + pot.amount + total_of pots) paid.session)
          (find_winners_among pay.session (map (player_at pay.session) pot.eligible_player_indices))
          _ (winners_of_pot pot.eligible_player_indices n pay.session w.0.0 w.0.1 h)
          λ winners a.
            Returns->>= (λ paid. PaidBy s (n + pot.amount) paid.session)
              (λ paid. PaidBy s (n + pot.amount + total_of pots) paid.session)
              (pay_pot pot winners pay) _ (pay_winnable_pot n pot winners pay a (omega arith) h)
              (λ paid done. pay_pots-PaidBy (n + pot.amount) pots paid w.1 (omega arith) done))

  -- Effects and bankrolls do not matter.
  PaidBy-effects :
      (n : ℕ) (t : GameSession) (b : String → Option ℕ) (es : List Effect)
      → PaidBy s n t
      → PaidBy s n (record t { bankrolls = b; effects = es })
  PaidBy-effects n t b es h = record {
    repaid = Repaid-trans s t (record t { bankrolls = b; effects = es }) h.repaid refl;
    sum = h.sum;
    seats = h.seats;
  }

  PaidBy-SameTable : (n : ℕ) (t t' : GameSession) → SameTable t t' → PaidBy s n t → PaidBy s n t'
  PaidBy-SameTable n t t' e h =
      subst (PaidBy s n) (sym e) (PaidBy-effects n t t.bankrolls t'.effects h)

  persist_player-PaidBy :
      (n p : ℕ) (t : GameSession) → PaidBy s n t → PaidBy s n (persist_player_chips p t)
  unfolding persist_player_chips
  persist_player-PaidBy n p t h = if_elim (PaidBy s n) t.has_repository (found (t.chips p)) h
    where
      found : (o : Option ℕ) → PaidBy s n (persist_found p o t)
      found none = h
      found (some amount) = PaidBy-effects n t _ _ h

  persist-PaidBy :
      (n : ℕ) (ps : List ℕ) (t : GameSession) → PaidBy s n t → PaidBy s n (persist_chips_of ps t)
  unfolding persist_chips_of
  persist-PaidBy n [] t h = h
  persist-PaidBy n (p ∷ ps) t h =
      persist-PaidBy n ps (persist_player_chips p t) (persist_player-PaidBy n p t h)

  PaidBy-IsSeated : (n : ℕ) (t : GameSession) → PaidBy s n t → IsSeated t
  PaidBy-IsSeated n t h = subst IsSeated (sym h.repaid) h.seats

  announce-PaidBy :
      (n : ℕ) (pay : Payout) → PaidBy s n pay.session → Returns (PaidBy s n) (announce pay)
  unfolding announce persist_all_chips broadcast_hand_result
  announce-PaidBy n pay h = elim (List-cases pay.winner_names) [
    | inl e ↦ rw (e, announce) h
    | inr (name, names, e) ↦
        let t = persist_chips_of pay.session.players pay.session in
        let persisted = persist-PaidBy n pay.session.players pay.session h in
        rw (e, announce)
          (Returns->>= (SameTable t) (PaidBy s n) (broadcast_state t) _
            (broadcast_state-Returns t (PaidBy-IsSeated n t persisted))
            λ t' same.
              PaidBy-SameTable n t' _ (send_each_effects _ t'.players t')
                (PaidBy-SameTable n t t' same persisted))
  ]

pub pot_states_total :
    (s : GameSession) (ps : List ℕ)
    → total_contributed (
        map
          (λ p. record { contributed = at_key s.total_contributed p; folded = s.folded_players p })
          ps)
      ≡ sum_at s.total_contributed ps
pot_states_total s [] = refl
pot_states_total s (p ∷ ps) =
    ap (λ (k : ℕ). at_key s.total_contributed p + k) (pot_states_total s ps)

-- What a payment of all pots leaves of a session: the players' stacks have grown by `n` chips in
-- all, the pot and the contributions are gone, and only chips, repository and messages differ.
pub record IsPaidOut (s : GameSession) (n : ℕ) (t : GameSession) : Type 0 where
  pub repaid : Repaid s t
  pub sum : sum_at t.chips t.players ≡ sum_at s.chips s.players + n
  pub pot_empty : t.pot ≡ 0
  pub contributed_empty : t.total_contributed ≡ empty_map
  pub seated : IsSeated t

-- The chips that the pots of a session hold: what each player has put in, counted up to the most
-- that a player who has not folded has put in.
abbrev pub payable : GameSession → ℕ
payable s = sum_of (λ p. min p.contributed (highest_live (pot_states s))) (pot_states s)

IsPaidOut-of :
    (s : GameSession) (n k : ℕ) (t : GameSession)
    → n ≡ k
    → PaidBy s n t
    → IsPaidOut s k (record t { pot = 0; total_contributed = empty_map })
IsPaidOut-of s n k t e h =
    let t' = record t { pot = 0; total_contributed = empty_map } in
    let players = ap (λ (x : GameSession). x.players) h.repaid in
    record {
      repaid = Repaid-trans s t t' h.repaid refl;
      sum = rw (players, ← e) h.sum;
      pot_empty = refl;
      contributed_empty = refl;
      seated = subst IsSeated (sym h.repaid) h.seats;
    }

-- In a balanced session whose players are all seated and whose pot is not empty, `award_all_pots`
-- returns: the stacks grow by exactly the chips that the pots hold, the pot and the contributions are
-- emptied, and nothing else of the session changes but the repository and the messages.
pub award_all_pots-IsPaidOut :
    (s : GameSession)
    → IsBalanced s
    → IsSeated s
    → s.pot ≢ 0
    → Returns (IsPaidOut s (payable s)) (award_all_pots s)
unfolding award_all_pots
award_all_pots-IsPaidOut s b seated some_pot =
    let states = pot_states s in
    let pots = compute_side_pots states in
    let contributed = pot_states_total s s.players in
    let bounded = b.bounded in
    let within = b.contributed_within in
    let small : total_contributed states < u32_max = omega arith in
    let paid = total-compute_side_pots states small in
    let le = total-compute_side_pots-le states small in
    let winnable =
      subst (λ (n : ℕ). All (IsWinnable n) pots) (length-map _ s.players)
        (compute_side_pots-IsWinnable states) in
    let has_pot : (s.pot == 0) ≡ false = ground arith in
    rw has_pot (
      Returns->>= (λ pay. PaidBy s (0 + total_of pots) pay.session) (IsPaidOut s (payable s))
        (pay_pots pots _) _
        (pay_pots-PaidBy s b.distinct 0 pots _ winnable (omega arith)
          (record { repaid = refl; sum = omega arith; seats = seated }))
        λ pay done.
          Returns->>= (PaidBy s (0 + total_of pots)) (IsPaidOut s (payable s)) (announce pay) _
            (announce-PaidBy s b.distinct (0 + total_of pots) pay done)
            (λ t all. IsPaidOut-of s (0 + total_of pots) (payable s) t (omega (arith, paid)) all))
