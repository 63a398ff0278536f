-- ===== src/HandEvaluator.antt =====
-- common/include/poker/hand_evaluator.h and common/src/hand_evaluator.cpp: the value of a five-card
-- hand, and the best hand among more cards. An array of five values is a list of five numbers.
pub mod Best
pub mod Order
mod Tests
use Prim.Native.Nat.{compare, Ordering}
use Prim.Native.String.{String}
use ascii_poker.Prelude.{
  ℕ, zero, suc, ◌+◌, ◌-◌, Bool, true, false, not, ◌&&◌, List, [], ◌∷◌, map, Option, none, some,
  length, get_or, keep_if, set, ◌++◌, ◌^◌, take, all_of, ltb, leb, ◌==◌, if◌then◌else◌,
}
use ascii_poker.Card.{Card, Rank, rank_index, suit_index, clubs, two}

pub data HandCategory : Type 0 where
  high_card one_pair two_pair three_of_kind straight flush full_house four_of_kind straight_flush :
      HandCategory

pub record HandValue : Type 0 where
  pub category : HandCategory
  pub tiebreakers : List ℕ

abbrev pub category_index : HandCategory → ℕ
category_index high_card = 0
category_index one_pair = 1
category_index two_pair = 2
category_index three_of_kind = 3
category_index straight = 4
category_index flush = 5
category_index full_house = 6
category_index four_of_kind = 7
category_index straight_flush = 8

-- The defaulted `operator<=>`: member by member, an array from its first element on.
unfoldable pub compare_arrays : List ℕ → List ℕ → Ordering
compare_arrays [] [] = Ordering.eq
compare_arrays [] (b ∷ bs) = Ordering.lt
compare_arrays (a ∷ as') [] = Ordering.gt
compare_arrays (a ∷ as') (b ∷ bs) = elim (compare a b) [
  | Ordering.lt ↦ Ordering.lt
  | Ordering.eq ↦ compare_arrays as' bs
  | Ordering.gt ↦ Ordering.gt
]

unfoldable pub compare_values : HandValue → HandValue → Ordering
unfolding compare_arrays
compare_values a b = elim (compare (category_index a.category) (category_index b.category)) [
  | Ordering.lt ↦ Ordering.lt
  | Ordering.eq ↦ compare_arrays a.tiebreakers b.tiebreakers
  | Ordering.gt ↦ Ordering.gt
]

-- `a > b` and `a == b`.
unfoldable pub value_gt : HandValue → HandValue → Bool
unfolding compare_values
value_gt a b = elim (compare_values a b) [ Ordering.gt ↦ true | _ ↦ false ]

unfoldable pub value_eq : HandValue → HandValue → Bool
unfolding compare_values
value_eq a b = elim (compare_values a b) [ Ordering.eq ↦ true | _ ↦ false ]

abbrev pub rank_value : Rank → ℕ
rank_value r = rank_index r + 2

-- `std::sort`, by insertion: first with `<`, then with `std::greater`.
insert_up : ℕ → List ℕ → List ℕ
insert_up v [] = v ∷ []
insert_up v (x ∷ xs) = let rest = insert_up v xs in if leb v x then v ∷ x ∷ xs else x ∷ rest

unfoldable pub sort_up : List ℕ → List ℕ
unfolding insert_up
sort_up [] = []
sort_up (x ∷ xs) = insert_up x (sort_up xs)

insert_down : ℕ → List ℕ → List ℕ
insert_down v [] = v ∷ []
insert_down v (x ∷ xs) = let rest = insert_down v xs in if leb x v then v ∷ x ∷ xs else x ∷ rest

unfoldable pub sort_down : List ℕ → List ℕ
unfolding insert_down
sort_down [] = []
sort_down (x ∷ xs) = insert_down x (sort_down xs)

-- The loop that tests whether each value is one above the last.
unfoldable pub ascending_by_one : List ℕ → Bool
ascending_by_one [] = true
ascending_by_one (x ∷ []) = true
ascending_by_one (x ∷ y ∷ ys) = (y == x + 1) && ascending_by_one (y ∷ ys)

-- `is_straight`: `none` for false, and the value of `high` for true.
unfoldable pub is_straight : List ℕ → Option ℕ
unfolding sort_up ascending_by_one
is_straight values =
    let sorted = sort_up values in
    let at = λ (i : ℕ). get_or sorted i 0 in
    if ascending_by_one sorted
    then some (at 4)
    else if at 0 == 2 && (at 1 == 3 && (at 2 == 4 && (at 3 == 5 && (at 4 == 14))))
    then some 5
    else none

abbrev pub make_hand : HandCategory → List ℕ → HandValue
make_hand category tiebreakers = record { category = category; tiebreakers = tiebreakers }

-- `counts[v]`.
abbrev pub counts : List ℕ → ℕ → ℕ
counts [] v = 0
counts (x ∷ xs) v = (if x == v then 1 else 0) + counts xs v

-- The values of the loops `for (int v = 14; v >= 2; --v)`.
abbrev pub down_from_14 : List ℕ
down_from_14 = 14 ∷ 13 ∷ 12 ∷ 11 ∷ 10 ∷ 9 ∷ 8 ∷ 7 ∷ 6 ∷ 5 ∷ 4 ∷ 3 ∷ 2 ∷ []

-- The first value of a loop that passes the test, 0 if none does.
unfoldable pub first_where : (ℕ → Bool) → List ℕ → ℕ
first_where test [] = 0
first_where test (v ∷ vs) = let rest = first_where test vs in if test v then v else rest

-- The loop that looks for a triple and a pair.
unfoldable pub trip_and_pair : (ℕ → ℕ) → ℕ → ℕ → List ℕ → ℕ × ℕ
trip_and_pair n trip pair [] = (trip, pair)
trip_and_pair n trip pair (v ∷ vs) =
    let third = (n v == 3) && (trip == 0) in
    trip_and_pair n (if third then v else trip)
      (if third then pair else if (n v == 2) && (pair == 0) then v else pair) vs

-- The values that pass the test, at most `n` of them, with zeros behind: an array of `n` kickers.
unfoldable pub kickers : ℕ → (ℕ → Bool) → List ℕ → List ℕ
kickers zero test vs = []
kickers (suc n) test [] = 0 ∷ kickers n test []
kickers (suc n) test (v ∷ vs) =
    let used = v ∷ kickers n test vs in
    let skipped = kickers (suc n) test vs in if test v then used else skipped

-- The end of `evaluate_five_values`, from the loop that collects up to two pairs.
unfoldable pub pairs_or_high : List ℕ → List ℕ → HandValue
unfolding first_where kickers
pairs_or_high values [] = make_hand high_card values
pairs_or_high values (p ∷ []) =
    make_hand one_pair (p ∷ kickers 3 (λ v. not (v == p)) values ++ 0 ∷ [])
pairs_or_high values (p ∷ q ∷ more) =
    make_hand two_pair (p ∷ q ∷ first_where (λ v. not (v == p) && not (v == q)) values ∷ 0 ∷ 0 ∷ [])

unfoldable pub evaluate_five_values : List ℕ → Bool → HandValue
unfolding is_straight first_where trip_and_pair kickers pairs_or_high sort_down
evaluate_five_values unsorted is_flush =
    let values = sort_down unsorted in
    let n = counts values in
    let run = is_straight values in
    let high : ℕ = elim run [ none ↦ 0 | some v ↦ v ] in
    let is_run : Bool = elim run [ none ↦ false | some _ ↦ true ] in
    let quad = first_where (λ v. n v == 4) down_from_14 in
    let (trip, pair) = trip_and_pair n 0 0 down_from_14 in
    let pairs = take 2 (keep_if (λ v. n v == 2) down_from_14) in
    if is_flush && is_run
    then make_hand straight_flush (high ∷ 0 ∷ 0 ∷ 0 ∷ 0 ∷ [])
    else if ltb 0 quad
    then make_hand four_of_kind (quad ∷ first_where (λ k. n k == 1) down_from_14 ∷ 0 ∷ 0 ∷ 0 ∷ [])
    else if ltb 0 trip && ltb 0 pair
    then make_hand full_house (trip ∷ pair ∷ 0 ∷ 0 ∷ 0 ∷ [])
    else if is_flush
    then make_hand flush values
    else if is_run
    then make_hand straight (high ∷ 0 ∷ 0 ∷ 0 ∷ 0 ∷ [])
    else if ltb 0 trip
    then make_hand three_of_kind (trip ∷ kickers 2 (λ v. not (v == trip)) values ++ 0 ∷ 0 ∷ [])
    else pairs_or_high values pairs

-- All cards have the suit of the first.
unfoldable pub same_suit : List Card → Bool
same_suit [] = true
same_suit (c ∷ cs) = all_of (λ d. suit_index d.suit == suit_index c.suit) (c ∷ cs)

unfoldable pub evaluate_five : List Card → HandValue
unfolding evaluate_five_values same_suit
evaluate_five cards = evaluate_five_values (map (λ c. rank_value c.rank) cards) (same_suit cards)

-- The loop `c[j] = c[j - 1] + 1` behind the index that was raised, `rounds` times from `j`.
unfoldable pub reset_after : ℕ → ℕ → List ℕ → List ℕ
reset_after zero j c = c
reset_after (suc rounds) j c = reset_after rounds (suc j) (set c j (get_or c (j - 1) 0 + 1))

-- The loop of `next_combination` from index `i` down, started at `suc i`; `none` is false.
unfoldable pub raise_from : ℕ → ℕ → List ℕ → Option (List ℕ)
unfolding reset_after
raise_from n zero c = none
raise_from n (suc i) c =
    let lower = raise_from n i c in
    if not (get_or c i 0 == i + n - 5)
    then some (reset_after (4 - i) (suc i) (set c i (get_or c i 0 + 1)))
    else lower

unfoldable pub next_combination : ℕ → List ℕ → Option (List ℕ)
unfolding raise_from
next_combination n c = raise_from n 5 c

-- The cards at the five indices. All indices are below the count of cards.
unfoldable pub hand_at : List Card → List ℕ → List Card
hand_at cards idx = map (λ i. get_or cards i (record { suit = clubs; rank = two })) idx

-- The `do … while` loop. There are fewer than `n ^ 5` combinations, so that fuel is enough.
unfoldable pub best_loop : ℕ → List Card → List ℕ → HandValue → HandValue
unfolding evaluate_five value_gt next_combination hand_at
best_loop zero cards idx best = best
best_loop (suc fuel) cards idx best =
    let value = evaluate_five (hand_at cards idx) in
    let best' = if value_gt value best then value else best in
    elim (next_combination (length cards) idx) [
      | none ↦ best'
      | some idx' ↦ best_loop fuel cards idx' best'
    ]

-- A value-initialised `HandValue`.
abbrev pub no_value : HandValue
no_value = make_hand high_card (0 ∷ 0 ∷ 0 ∷ 0 ∷ 0 ∷ [])

unfoldable pub evaluate_best : List Card → HandValue
unfolding best_loop
evaluate_best cards =
    if ltb (length cards) 5
    then no_value
    else best_loop (length cards ^ 5) cards (0 ∷ 1 ∷ 2 ∷ 3 ∷ 4 ∷ []) no_value

unfoldable pub hand_category_label : HandCategory → String
hand_category_label high_card = "High card"
hand_category_label one_pair = "Pair"
hand_category_label two_pair = "Two pair"
hand_category_label three_of_kind = "Three of a kind"
hand_category_label straight = "Straight"
hand_category_label flush = "Flush"
hand_category_label full_house = "Full house"
hand_category_label four_of_kind = "Four of a kind"
hand_category_label straight_flush = "Straight flush"
