-- ===== src/HandEvaluator/Best.antt =====
-- `evaluate_best`, and the choices of five cards.
use ascii_poker.Prelude.{
  ℕ, zero, suc, ◌≤◌, ◌≡◌, refl, List, [], ◌∷◌, ◌++◌, map, length, arith, if◌then◌else◌,
}
use ascii_poker.Card.{Card}
use ascii_poker.HandEvaluator.{HandValue, no_value, value_gt, evaluate_five, evaluate_best}

-- All ways to take `n` of the items, in order.
abbrev pub choose {ℓ} : {A : Type ℓ} → ℕ → List A → List (List A)
choose zero xs = [] ∷ []
choose (suc n) [] = []
choose (suc n) (x ∷ xs) = map (◌∷◌ x) (choose n xs) ++ choose (suc n) xs

-- The greatest value among the hands, the first of those that are equal, or the value given.
abbrev pub best_of : HandValue → List (List Card) → HandValue
best_of best [] = best
best_of best (hand ∷ hands) =
    best_of (if value_gt (evaluate_five hand) best then evaluate_five hand else best) hands

-- With five, six or seven cards, the indices run through all choices.
evaluate_best-five :
    (a b c d e : Card)
    → evaluate_best (a ∷ b ∷ c ∷ d ∷ e ∷ []) ≡ best_of no_value (choose 5 (a ∷ b ∷ c ∷ d ∷ e ∷ []))
unfolding evaluate_best
evaluate_best-five a b c d e = refl

evaluate_best-six :
    (a b c d e f : Card)
    → evaluate_best (a ∷ b ∷ c ∷ d ∷ e ∷ f ∷ [])
      ≡ best_of no_value (choose 5 (a ∷ b ∷ c ∷ d ∷ e ∷ f ∷ []))
unfolding evaluate_best
evaluate_best-six a b c d e f = refl

evaluate_best-seven :
    (a b c d e f g : Card)
    → evaluate_best (a ∷ b ∷ c ∷ d ∷ e ∷ f ∷ g ∷ [])
      ≡ best_of no_value (choose 5 (a ∷ b ∷ c ∷ d ∷ e ∷ f ∷ g ∷ []))
unfolding evaluate_best
evaluate_best-seven a b c d e f g = refl

-- With five, six or seven cards, `evaluate_best` is the greatest value, from that of no hand on, of
-- the choices of five among them, each tried once and in order.
pub evaluate_best_lem :
    (cards : List Card)
    → 5 ≤ length cards
    → length cards ≤ 7
    → evaluate_best cards ≡ best_of no_value (choose 5 cards)
evaluate_best_lem (a ∷ b ∷ c ∷ d ∷ e ∷ []) h k = evaluate_best-five a b c d e
evaluate_best_lem (a ∷ b ∷ c ∷ d ∷ e ∷ f ∷ []) h k = evaluate_best-six a b c d e f
evaluate_best_lem (a ∷ b ∷ c ∷ d ∷ e ∷ f ∷ g ∷ []) h k = evaluate_best-seven a b c d e f g
evaluate_best_lem (a ∷ b ∷ c ∷ d ∷ e ∷ f ∷ g ∷ x ∷ xs) h k = absurd (omega arith)
evaluate_best_lem [] h k = absurd (omega arith)
evaluate_best_lem (a ∷ []) h k = absurd (omega arith)
evaluate_best_lem (a ∷ b ∷ []) h k = absurd (omega arith)
evaluate_best_lem (a ∷ b ∷ c ∷ []) h k = absurd (omega arith)
evaluate_best_lem (a ∷ b ∷ c ∷ d ∷ []) h k = absurd (omega arith)
