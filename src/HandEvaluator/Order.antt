-- ===== src/HandEvaluator/Order.antt =====
-- The order of hand values, and `evaluate_best`.
use Prim.Native.Nat.{Ordering}
use ascii_poker.Prelude.{
  ℕ, ◌≤◌, ◌≡◌, refl, Bool, true, false, List, [], ◌∷◌, All, arith, if◌then◌else◌, Bool-cases, inl,
  inr, length,
}
use ascii_poker.Card.{Card}
use ascii_poker.HandEvaluator.{
  HandValue, compare_arrays, value_gt, evaluate_five, evaluate_best, no_value,
}
use ascii_poker.HandEvaluator.Best.{choose, best_of, evaluate_best_lem}

-- Is the first above the second?
abbrev is_gt : Ordering → Bool
is_gt Ordering.gt = true
is_gt _ = false

compare_arrays_refl : (as' : List ℕ) → is_gt (compare_arrays as' as') ≡ false
unfolding compare_arrays
compare_arrays_refl [] = refl
compare_arrays_refl (a ∷ as') = ground (arith, compare_arrays_refl as')

compare_arrays_asym :
    (as' bs : List ℕ) → is_gt (compare_arrays as' bs) ≡ true → is_gt (compare_arrays bs as') ≡ false
unfolding compare_arrays
compare_arrays_asym [] [] h = refl
compare_arrays_asym [] (b ∷ bs) h = absurd (cc)
compare_arrays_asym (a ∷ as') [] h = refl
compare_arrays_asym (a ∷ as') (b ∷ bs) h = ground (arith, compare_arrays_asym as' bs)

compare_arrays_trans :
    (as' bs cs : List ℕ)
    → is_gt (compare_arrays as' bs) ≡ false
    → is_gt (compare_arrays bs cs) ≡ false
    → is_gt (compare_arrays as' cs) ≡ false
unfolding compare_arrays
compare_arrays_trans [] bs [] h k = refl
compare_arrays_trans [] bs (c ∷ cs) h k = refl
compare_arrays_trans (a ∷ as') [] cs h k = absurd (cc)
compare_arrays_trans (a ∷ as') (b ∷ bs) [] h k = absurd (cc)
compare_arrays_trans (a ∷ as') (b ∷ bs) (c ∷ cs) h k =
    ground (arith, compare_arrays_trans as' bs cs)

value_gt_refl : (a : HandValue) → value_gt a a ≡ false
unfolding value_gt
value_gt_refl a = ground (arith, compare_arrays_refl a.tiebreakers)

value_gt_asym : (a b : HandValue) → value_gt a b ≡ true → value_gt b a ≡ false
unfolding value_gt
value_gt_asym a b h = ground (arith, compare_arrays_asym a.tiebreakers b.tiebreakers)

value_gt_trans :
    (a b c : HandValue) → value_gt a b ≡ false → value_gt b c ≡ false → value_gt a c ≡ false
unfolding value_gt
value_gt_trans a b c h k =
    ground (arith, compare_arrays_trans a.tiebreakers b.tiebreakers c.tiebreakers)

-- The greater of two values is below neither.
greater-bounds :
    (v best : HandValue)
    → let top = (if value_gt v best then v else best) in
      (value_gt best top ≡ false) × (value_gt v top ≡ false)
greater-bounds v best = elim (Bool-cases (value_gt v best)) [
  | inl above ↦ rw above (value_gt_asym v best above, value_gt_refl v)
  | inr below ↦ rw below (value_gt_refl best, below)
]

-- No hand, and not the value given, is above the best of them.
best_of-bounds :
    (best : HandValue) (hands : List (List Card))
    → (value_gt best (best_of best hands) ≡ false)
      × All (λ hand. value_gt (evaluate_five hand) (best_of best hands) ≡ false) hands
best_of-bounds best [] = (value_gt_refl best, tt)
best_of-bounds best (hand ∷ hands) =
    let v = evaluate_five hand in
    let top = (if value_gt v best then v else best) in
    let (under, all_under) = best_of-bounds top hands in
    let (old, new) = greater-bounds v best in
    (
      value_gt_trans best top (best_of top hands) old under,
      (value_gt_trans v top (best_of top hands) new under, all_under),
    )

-- No choice of five cards among five to seven has a value above that of `evaluate_best`.
pub evaluate_best-bounds :
    (cards : List Card)
    → 5 ≤ length cards
    → length cards ≤ 7
    → All (λ hand. value_gt (evaluate_five hand) (evaluate_best cards) ≡ false) (choose 5 cards)
evaluate_best-bounds cards h k =
    rw (evaluate_best_lem cards h k) (best_of-bounds no_value (choose 5 cards)).1
