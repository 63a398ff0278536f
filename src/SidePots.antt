-- ===== src/SidePots.antt =====
-- common/include/poker/side_pots.h and common/src/side_pots.cpp: how the chips of a hand are split
-- into a main pot and side pots. Chips are uint32_t: the sum that makes up a pot wraps.
pub mod Layers
pub mod Conservation
pub mod Eligible
pub mod Winnable
mod Tests
use ascii_poker.Prelude.{
  ℕ, zero, suc, ◌+◌, ◌-◌, Bool, List, [], ◌∷◌, map, if◌then◌else◌, ltb, ◌==◌, min, get_or, keep_if,
  length, u32, u32_max,
}

pub record PotPlayerState : Type 0 where
  pub contributed : ℕ
  pub folded : Bool

pub record SidePot : Type 0 where
  pub amount : ℕ
  pub eligible_player_indices : List ℕ

-- The loop that collects the indices of the players who have not folded; `i` is the index of the
-- first player of the list.
unfoldable pub eligible_from : ℕ → List PotPlayerState → List ℕ
eligible_from i [] = []
eligible_from i (p ∷ ps) =
    let rest = eligible_from (suc i) ps in if p.folded then rest else i ∷ rest

-- The loop over `eligible` that lowers `min_bet` to the smallest remaining stake above 0.
unfoldable pub smallest_bet : List ℕ → ℕ → List ℕ → ℕ
smallest_bet remaining min_bet [] = min_bet
smallest_bet remaining min_bet (index ∷ rest) =
    let bet = get_or remaining index 0 in
    smallest_bet remaining (if ltb 0 bet then min min_bet bet else min_bet) rest

-- The loop over `remaining` that takes up to `min_bet` from each stake; `amount` is the pot so far.
unfoldable pub take_shares : ℕ → ℕ → List ℕ → ℕ × List ℕ
take_shares min_bet amount [] = (amount, [])
take_shares min_bet amount (r ∷ rs) =
    let share = min r min_bet in
    let (amount', rs') = take_shares min_bet (if r == 0 then amount else u32 (amount + share)) rs in
    (amount', (if r == 0 then r else r - share) ∷ rs')

-- The players left for the next pot: `remove_if` of those with nothing remaining.
unfoldable pub still_eligible : List ℕ → List ℕ → List ℕ
still_eligible remaining eligible = keep_if (λ index. ltb 0 (get_or remaining index 0)) eligible

-- The `while` loop, with fuel. Each round drops a player from `eligible`, so the count of eligible
-- players and one more is enough.
unfoldable pub pots_loop : ℕ → List ℕ → List ℕ → List SidePot
unfolding smallest_bet take_shares still_eligible
pots_loop zero remaining eligible = []
pots_loop (suc fuel) remaining [] = []
pots_loop (suc fuel) remaining (e ∷ es) =
    let eligible = e ∷ es in
    let min_bet = smallest_bet remaining u32_max eligible in
    let (amount, remaining') = take_shares min_bet 0 remaining in
    let rest = pots_loop fuel remaining' (still_eligible remaining' eligible) in
    if min_bet == u32_max
    then []
    else record { amount = amount; eligible_player_indices = eligible } ∷ rest

unfoldable pub compute_side_pots : List PotPlayerState → List SidePot
unfolding pots_loop eligible_from
compute_side_pots players =
    let eligible = eligible_from 0 players in
    pots_loop (suc (length eligible)) (map (λ p. p.contributed) players) eligible
