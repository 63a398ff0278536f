-- ===== src/HandEvaluator/Tests.antt =====
-- Concrete hands.
use ascii_poker.Prelude.{◌≡◌, refl, false, List, [], ◌∷◌, All, arith}
use ascii_poker.Card.{
  Suit, clubs, diamonds, hearts, spades, Rank, two, three, four, five, king, ace, Card,
}
use ascii_poker.HandEvaluator.{
  no_value, value_gt, evaluate_five, evaluate_best, make_hand, straight, full_house,
}
use ascii_poker.HandEvaluator.Best.{choose, best_of, evaluate_best_lem}
use ascii_poker.HandEvaluator.Order.{evaluate_best-bounds}

abbrev card : Suit → Rank → Card
card s r = record { suit = s; rank = r }

-- An ace plays low in a straight to five.
abbrev wheel_cards : List Card
wheel_cards =
    card clubs ace
    ∷ card hearts two
    ∷ card spades three
    ∷ card clubs four
    ∷ card diamonds five
    ∷ card clubs king
    ∷ card hearts king
    ∷ []

wheel : evaluate_best wheel_cards ≡ make_hand straight (5 ∷ 0 ∷ 0 ∷ 0 ∷ 0 ∷ [])
unfolding evaluate_best
wheel = refl

aces_over_kings :
    evaluate_five (
      card clubs ace
      ∷ card hearts king
      ∷ card spades ace
      ∷ card clubs king
      ∷ card diamonds ace
      ∷ [])
    ≡ make_hand full_house (14 ∷ 13 ∷ 0 ∷ 0 ∷ 0 ∷ [])
unfolding evaluate_five
aces_over_kings = refl

evaluate_best_lem_example : evaluate_best wheel_cards ≡ best_of no_value (choose 5 wheel_cards)
evaluate_best_lem_example = evaluate_best_lem wheel_cards (omega arith) (omega arith)

evaluate_best-bounds_example :
    All
      (λ hand. value_gt (evaluate_five hand) (evaluate_best wheel_cards) ≡ false)
      (choose 5 wheel_cards)
evaluate_best-bounds_example = evaluate_best-bounds wheel_cards (omega arith) (omega arith)
