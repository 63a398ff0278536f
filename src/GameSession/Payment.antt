-- ===== src/GameSession/Payment.antt =====
-- The payment of one pot in `award_all_pots`.
use ascii_poker.Prelude.{
  ℕ, suc, ◌+◌, ◌*◌, ◌/◌, ◌%◌, ◌<◌, ◌≡◌, refl, ap, ◌∙◌, subst, inl, inr, true, List, [], ◌∷◌, some,
  length, elem, All, arith, ltb, ◌==◌, at_key, assign, u32, u32_max, Bool-cases,
}
use ascii_poker.SidePots.{SidePot}
use ascii_poker.GameSession.State.{GameSession}
use ascii_poker.GameSession.Award.{
  cards_of, Payout, add_chips, winner_label, has_name, pay_winners, pay_pot,
}
use ascii_poker.GameSession.Table.{Distinct, sum_at, sum_at-assign, at_key-le-sum_at}
use ascii_poker.GameSession.Outcomes.{Returns, Returns->>=}
use ascii_poker.GameSession.Seated.{HasSeat, All_elem, is_some-assign}

-- `t` is `s` but for the chips, the repository and the messages.
abbrev pub Repaid : GameSession → GameSession → Type 0
Repaid s t = t ≡ record s {
  chips = t.chips;
  pot = t.pot;
  total_contributed = t.total_contributed;
  bankrolls = t.bankrolls;
  effects = t.effects;
}

pub Repaid-trans : (s t u : GameSession) → Repaid s t → Repaid t u → Repaid s u
Repaid-trans s t u h k =
    k
    ∙ ap
        (λ (x : GameSession). record x {
          chips = u.chips;
          pot = u.pot;
          total_contributed = u.total_contributed;
          bankrolls = u.bankrolls;
          effects = u.effects;
        })
        h

-- All the listed players sit at the table.
abbrev pub InTable : GameSession → List ℕ → Type 0
InTable s = All (λ p. elem p s.players ≡ true)

-- After payments of `n` chips in all, from the session `s`.
pub record PaidBy (s : GameSession) (n : ℕ) (t : GameSession) : Type 0 where
  pub repaid : Repaid s t
  pub sum : sum_at t.chips s.players ≡ sum_at s.chips s.players + n
  pub seats : All (HasSeat t.chips s.round_bets s.hands) s.players

All-HasSeat-assign :
    (s t : GameSession) (w v : ℕ) (ps : List ℕ)
    → All (HasSeat t.chips s.round_bets s.hands) ps
    → All (HasSeat (assign t.chips w (some v)) s.round_bets s.hands) ps
All-HasSeat-assign s t w v [] h = tt
All-HasSeat-assign s t w v (p ∷ ps) h =
    ((is_some-assign t.chips w v p h.0.0, h.0.1, h.0.2), All-HasSeat-assign s t w v ps h.1)

div-add-mod' : (a k : ℕ) → a / suc k * suc k + a % suc k ≡ a
div-add-mod' a k = omega arith

module _ (s : GameSession) (distinct : Distinct s.players) where
  pub add_chips-PaidBy :
      (n a w : ℕ) (t : GameSession)
      → elem w s.players ≡ true
      → sum_at s.chips s.players + n + a < u32_max
      → PaidBy s n t
      → PaidBy s (n + a) (add_chips w a t)
  add_chips-PaidBy n a w t here small h =
      let v = u32 (at_key t.chips w + a) in
      let le = at_key-le-sum_at t.chips w s.players here in
      let total = h.sum in
      let exact : v ≡ at_key t.chips w + a = omega arith in
      record {
        repaid = Repaid-trans s t (add_chips w a t) h.repaid refl;
        sum = omega (arith, sum_at-assign t.chips w v s.players distinct here);
        seats = All-HasSeat-assign s t w v s.players h.seats;
      }

  winner_label-Returns :
      (n w : ℕ) (t : GameSession)
      → elem w s.players ≡ true
      → PaidBy s n t
      → Returns (λ _. Unit {0}) (winner_label t w)
  unfolding winner_label cards_of
  winner_label-Returns n w t here h =
      let seat = All_elem (HasSeat t.chips s.round_bets s.hands) s.players w here h.seats in
      let same = ap (λ (x : GameSession). x.hands w) h.repaid in ground (arith, seat.2, same)

  pub pay_winners-PaidBy :
      (share n : ℕ) (ws : List ℕ) (pay : Payout)
      → InTable s ws
      → sum_at s.chips s.players + n + share * length ws < u32_max
      → PaidBy s n pay.session
      → Returns (λ paid. PaidBy s (n + share * length ws) paid.session) (pay_winners share ws pay)
  unfolding pay_winners
  pay_winners-PaidBy share n [] pay here small h =
      subst (λ (k : ℕ). PaidBy s k pay.session) (omega arith) h
  pay_winners-PaidBy share n (w ∷ ws) pay here small h =
      let next = add_chips-PaidBy n share w pay.session here.0 (omega arith) h in
      let t = add_chips w share pay.session in
      let total : n + share + share * length ws ≡ n + share * suc (length ws) = omega arith in
      let go = λ (q : Payout) (e : PaidBy s (n + share) q.session).
        pay_winners-PaidBy share (n + share) ws q here.1 (omega arith) e in
      subst (λ (k : ℕ). Returns (λ paid. PaidBy s k paid.session) (pay_winners share (w ∷ ws) pay))
        total
        (elim (Bool-cases (has_name (pay.session.name_of w) pay.winner_names)) [
          | inl named ↦ rw named (go (record pay { session = t }) next)
          | inr new ↦ rw new (
              Returns->>= (λ _. Unit {0})
                (λ paid. PaidBy s (n + share + share * length ws) paid.session) (winner_label t w) _
                (winner_label-Returns (n + share) w t here.0 next) (λ label _. go _ next))
        ])

  -- A pot with a winner is paid out in full: equal shares, and the remainder to the first winner.
  pub pay_pot-PaidBy :
      (n : ℕ) (pot : SidePot) (w : ℕ) (ws : List ℕ) (pay : Payout)
      → InTable s (w ∷ ws)
      → sum_at s.chips s.players + n + pot.amount < u32_max
      → PaidBy s n pay.session
      → Returns (λ paid. PaidBy s (n + pot.amount) paid.session) (pay_pot pot (w ∷ ws) pay)
  unfolding pay_pot
  pay_pot-PaidBy n pot w ws pay here small h =
      let k = suc (length ws) in
      let share = pot.amount / k in
      let rest = pot.amount % k in
      let exact : share * k + rest ≡ pot.amount = div-add-mod' pot.amount (length ws) in
      elim (Bool-cases (pot.amount == 0)) [
        | inl e ↦ rw e (subst (λ (m : ℕ). PaidBy s m pay.session) (ground arith) h)
        | inr e ↦ rw e (
            Returns->>= (λ paid. PaidBy s (n + share * k) paid.session)
              (λ paid. PaidBy s (n + pot.amount) paid.session) (pay_winners share (w ∷ ws) pay) _
              (pay_winners-PaidBy share n (w ∷ ws) pay here (omega arith) h)
              λ paid done. elim (Bool-cases (ltb 0 rest)) [
                | inl more ↦ rw more (
                    subst (λ (m : ℕ). PaidBy s m (add_chips w rest paid.session)) (omega arith)
                      (add_chips-PaidBy (n + share * k) rest w paid.session here.0 (omega arith)
                        done))
                | inr even ↦
                    rw even (subst (λ (m : ℕ). PaidBy s m paid.session) (ground arith) done)
              ])
      ]
