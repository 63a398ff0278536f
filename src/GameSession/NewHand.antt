-- ===== src/GameSession/NewHand.antt =====
-- A new hand: what `deal_hands` gives each player, and that the blinds leave a sound session.
use ascii_poker.Prelude.{
  ℕ, ◌+◌, ◌*◌, ◌≤◌, ◌≡◌, refl, ap, ◌∙◌, sym, subst, inl, inr, true, false, List, [], ◌∷◌, length,
  elem, arith, ◌==◌, if◌then◌else◌, assign, assign_lem, ℕ_discrete, Option, none, some,
  length-append,
}
use ascii_poker.Card.{Card}
use ascii_poker.Deck.Laws.{deal_lem}
use ascii_poker.GameSession.State.{GameSession}
use ascii_poker.GameSession.Phases.{deal_hands, stack_of, buy_in}
use ascii_poker.GameSession.Table.{Distinct}
use ascii_poker.GameSession.Outcomes.{Returns, Returns-weaken}
use ascii_poker.GameSession.Seated.{is_some}

-- What a player has after the deal, from the session `s` before it.
pub record IsDealt (s t : GameSession) (p : ℕ) : Type 0 where
  pub stack : t.chips p ≡ some (stack_of s p)
  pub bet : t.round_bets p ≡ some 0
  pub put_in : t.total_contributed p ≡ some 0
  pub hand : is_some (t.hands p) ≡ true

-- What stays of a player who is dealt nothing.
pub record IsUntouched (s t : GameSession) (p : ℕ) : Type 0 where
  pub stack : t.chips p ≡ s.chips p
  pub bet : t.round_bets p ≡ s.round_bets p
  pub put_in : t.total_contributed p ≡ s.total_contributed p
  pub hand : t.hands p ≡ s.hands p

pub record Deals (s : GameSession) (ps : List ℕ) (t : GameSession) : Type 0 where
  pub frame : t ≡ record s {
    chips = t.chips;
    deck = t.deck;
    hands = t.hands;
    round_bets = t.round_bets;
    total_contributed = t.total_contributed;
  }
  pub dealt : (p : ℕ) → elem p ps ≡ true → IsDealt s t p
  pub untouched : (p : ℕ) → elem p ps ≡ false → IsUntouched s t p
  pub taken : length t.deck.cards + 2 * length ps ≡ length s.deck.cards

-- One player is dealt a hand.
abbrev with_hand : GameSession → ℕ → List Card → List Card → GameSession
with_hand s p hand rest = record s {
  chips = assign s.chips p (some (stack_of s p));
  deck = record { cards = rest };
  hands = assign s.hands p (some hand);
  round_bets = assign s.round_bets p (some 0);
  total_contributed = assign s.total_contributed p (some 0);
}

assign_self : {V : Type 0} (m : ℕ → V) (k : ℕ) (v : V) → assign m k v k ≡ v
assign_self m k v = assign_lem m k v k ∙ same
  where
    same : (if k == k then v else m k) ≡ v
    same = let e : (k == k) ≡ true = ground arith in rw e

pub assign_other :
    {V : Type 0} (m : ℕ → V) (k : ℕ) (v : V) (j : ℕ) → (j == k) ≡ false → assign m k v j ≡ m j
assign_other m k v j h = rw (assign_lem m k v j, h)

with_hand_self :
    (s : GameSession) (p : ℕ) (hand rest : List Card) → IsDealt s (with_hand s p hand rest) p
with_hand_self s p hand rest = record {
  stack = assign_self s.chips p (some (stack_of s p));
  bet = assign_self s.round_bets p (some 0);
  put_in = assign_self s.total_contributed p (some 0);
  hand = rw (assign_self s.hands p (some hand)) refl;
}

with_hand_other :
    (s : GameSession) (p : ℕ) (hand rest : List Card) (q : ℕ)
    → (q == p) ≡ false
    → IsUntouched s (with_hand s p hand rest) q
with_hand_other s p hand rest q ne = record {
  stack = assign_other s.chips p (some (stack_of s p)) q ne;
  bet = assign_other s.round_bets p (some 0) q ne;
  put_in = assign_other s.total_contributed p (some 0) q ne;
  hand = assign_other s.hands p (some hand) q ne;
}

IsUntouched-trans :
    (s t u : GameSession) (p : ℕ) → IsUntouched s t p → IsUntouched t u p → IsUntouched s u p
IsUntouched-trans s t u p h k = record {
  stack = k.stack ∙ h.stack;
  bet = k.bet ∙ h.bet;
  put_in = k.put_in ∙ h.put_in;
  hand = k.hand ∙ h.hand;
}

IsDealt-after : (s t u : GameSession) (p : ℕ) → IsDealt s t p → IsUntouched t u p → IsDealt s u p
IsDealt-after s t u p h k = record {
  stack = k.stack ∙ h.stack;
  bet = k.bet ∙ h.bet;
  put_in = k.put_in ∙ h.put_in;
  hand = rw k.hand h.hand;
}

IsDealt-before :
    (s : GameSession) (p : ℕ) (hand rest : List Card) (u : GameSession) (q : ℕ)
    → (q == p) ≡ false
    → IsDealt (with_hand s p hand rest) u q
    → IsDealt s u q
IsDealt-before s p hand rest u q ne h = record {
  stack = h.stack ∙ ap (λ (o : Option ℕ). some (elim o [ none ↦ buy_in s q | some c ↦ c ])) other;
  bet = h.bet;
  put_in = h.put_in;
  hand = h.hand;
}
  where
    other : (with_hand s p hand rest).chips q ≡ s.chips q
    other = assign_other s.chips p (some (stack_of s p)) q ne

Deals-cons :
    (s : GameSession) (p : ℕ) (ps : List ℕ) (hand rest : List Card) (u : GameSession)
    → elem p ps ≡ false
    → length rest + 2 ≡ length s.deck.cards
    → Deals (with_hand s p hand rest) ps u
    → Deals s (p ∷ ps) u
Deals-cons s p ps hand rest u new left k =
    let t = with_hand s p hand rest in
    let taken = k.taken in
    record {
      frame = k.frame;
      dealt = λ q e. elim (ℕ_discrete q p) [
        | yes same ↦
            subst (IsDealt s u) (sym same)
              (IsDealt-after s t u p (with_hand_self s p hand rest) (k.untouched p new))
        | no other ↦ IsDealt-before s p hand rest u q (ground arith) (k.dealt q (ground arith))
      ];
      untouched = λ q e.
          IsUntouched-trans s t u q (with_hand_other s p hand rest q (ground arith))
            (k.untouched q (ground arith));
      taken = omega arith;
    }

-- With two cards for each in the deck, every listed player is dealt a hand.
pub deal_hands-Deals :
    (ps : List ℕ) (s : GameSession)
    → Distinct ps
    → 2 * length ps ≤ length s.deck.cards
    → Returns (Deals s ps) (deal_hands ps s)
unfolding deal_hands
deal_hands-Deals [] s d h = record {
  frame = refl;
  dealt = λ p e. absurd (cc);
  untouched = λ p e. record { stack = refl; bet = refl; put_in = refl; hand = refl };
  taken = omega arith;
}
deal_hands-Deals (p ∷ ps) s d h = elim (deal_lem 2 s.deck) [
  | inr (e, short) ↦ absurd (omega arith)
  | inl (hand, rest, e, parts, size) ↦
      let t = with_hand s p hand rest in
      let left : length rest + 2 ≡ length s.deck.cards =
        omega (arith, ap length parts, length-append hand rest) in
      rw (e, deal_hands)
        (Returns-weaken (Deals t ps) (Deals s (p ∷ ps)) (deal_hands ps t)
          (λ u k. Deals-cons s p ps hand rest u d.0 left k)
          (deal_hands-Deals ps t d.1 (omega arith)))
]
