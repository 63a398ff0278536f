-- ===== src/SidePots/Tests.antt =====
-- Pots of concrete hands.
use ascii_poker.Prelude.{
  ℕ, ◌+◌, ◌<◌, ◌≡◌, ◌↔◌, refl, true, false, List, [], ◌∷◌, length, elem, min, All, sum_of, arith,
  suc,
}
use ascii_poker.SidePots.{PotPlayerState, eligible_from, pots_loop, compute_side_pots}
use ascii_poker.SidePots.Conservation.{
  total_contributed, total_of, stakes, highest_live, IsCovered, total-compute_side_pots,
  compute_side_pots_conserves,
}
use ascii_poker.SidePots.Eligible.{
  IsWinnable, compute_side_pots_fuel, compute_side_pots_folded, compute_side_pots-IsWinnable,
}
use ascii_poker.SidePots.Winnable.{
  winnable, winnable-compute_side_pots, compute_side_pots_free_ride,
}

abbrev put_in : ℕ → PotPlayerState
put_in n = record { contributed = n; folded = false }

abbrev folded_after : ℕ → PotPlayerState
folded_after n = record { contributed = n; folded = true }

-- All in with 50, a caller of 200, a raiser to 200, and a player who folded 30.
abbrev three_and_a_fold : List PotPlayerState
three_and_a_fold = put_in 50 ∷ put_in 200 ∷ put_in 200 ∷ folded_after 30 ∷ []

-- One player dealt in with nothing, and two blinds.
abbrev empty_handed : List PotPlayerState
empty_handed = put_in 0 ∷ put_in 10 ∷ put_in 20 ∷ []

main_and_side_pot :
    compute_side_pots three_and_a_fold
    ≡ record { amount = 180; eligible_player_indices = 0 ∷ 1 ∷ 2 ∷ [] }
      ∷ record { amount = 300; eligible_player_indices = 1 ∷ 2 ∷ [] }
      ∷ []
unfolding compute_side_pots
main_and_side_pot = refl

-- The chips that a folded player put in above all others are in no pot.
folded_excess_is_lost : total_of (compute_side_pots (folded_after 500 ∷ put_in 20 ∷ [])) ≡ 40
unfolding compute_side_pots
folded_excess_is_lost = refl

total-compute_side_pots_example :
    total_of (compute_side_pots three_and_a_fold)
    ≡ sum_of (λ p. min p.contributed (highest_live three_and_a_fold)) three_and_a_fold
total-compute_side_pots_example = total-compute_side_pots three_and_a_fold (omega arith)

compute_side_pots_conserves_example :
    (total_of (compute_side_pots three_and_a_fold) ≡ total_contributed three_and_a_fold)
    ↔ IsCovered (highest_live three_and_a_fold) three_and_a_fold
compute_side_pots_conserves_example = compute_side_pots_conserves three_and_a_fold (omega arith)

winnable-compute_side_pots_example :
    winnable 0 (compute_side_pots three_and_a_fold)
    ≡ sum_of (λ q. min q.contributed 50) three_and_a_fold
winnable-compute_side_pots_example =
    winnable-compute_side_pots three_and_a_fold 0 (put_in 50) (omega arith) refl refl (omega arith)

compute_side_pots_free_ride_example :
    (sum_of (λ q. min q.contributed 0) empty_handed ≡ 0)
    × (0 < winnable 0 (compute_side_pots empty_handed))
compute_side_pots_free_ride_example =
    compute_side_pots_free_ride empty_handed 0 (put_in 0) (omega arith) refl refl refl (omega arith)

compute_side_pots_fuel_example :
    pots_loop
      (suc (length (eligible_from 0 three_and_a_fold)) + 5)
      (stakes three_and_a_fold)
      (eligible_from 0 three_and_a_fold)
    ≡ compute_side_pots three_and_a_fold
compute_side_pots_fuel_example = compute_side_pots_fuel 5 three_and_a_fold

compute_side_pots_folded_example :
    All (λ pot. elem 3 pot.eligible_player_indices ≡ false) (compute_side_pots three_and_a_fold)
compute_side_pots_folded_example =
    compute_side_pots_folded three_and_a_fold 3 (folded_after 30) refl refl

compute_side_pots-IsWinnable_example : All (IsWinnable 4) (compute_side_pots three_and_a_fold)
compute_side_pots-IsWinnable_example = compute_side_pots-IsWinnable three_and_a_fold
