-- ===== src/SidePots/Winnable.antt =====
-- What one player can win: the pots for which the player is eligible.
use ascii_poker.Prelude.{
  ℕ, zero, suc, ◌<◌, ◌≡◌, refl, true, false, some, List, [], ◌∷◌, min, length, get_or, get_elem?,
  sum, sum_of, elem, u32_max, arith, if◌then◌else◌, ◌∙◌, ap,
}
use ascii_poker.SidePots.{
  PotPlayerState, SidePot, smallest_bet, still_eligible, pots_loop, compute_side_pots,
  eligible_from,
}
use ascii_poker.SidePots.Layers.{
  lowered, capped_sum, top, smallest_bet_pos, smallest_bet-le_elem, length-still_eligible,
  elem-still_eligible, get_or-lowered, get_or-le-sum, sum-lowered-le, capped_sum-zero,
  capped_sum-split, take_shares-left, smallest_bet-top, top-le-sum,
}
use ascii_poker.SidePots.Conservation.{
  pots_loop_round, stakes, total_contributed, highest_live, capped_sum-stakes, top-eligible,
}
use ascii_poker.SidePots.Eligible.{elem-eligible_from}

-- The chips in the pots for which the player with index `j` is eligible.
abbrev pub winnable : ℕ → List SidePot → ℕ
winnable j = sum_of (λ pot. if elem j pot.eligible_player_indices then pot.amount else 0)

-- A player that has dropped out is eligible for no later pot.
pub winnable_dropped :
    (fuel : ℕ) (rs es : List ℕ) (j : ℕ) → elem j es ≡ false → winnable j (pots_loop fuel rs es) ≡ 0
unfolding pots_loop
winnable_dropped zero rs es j h = refl
winnable_dropped (suc fuel) rs [] j h = refl
winnable_dropped (suc fuel) rs (e ∷ es) j h =
    let rs' = lowered (smallest_bet rs u32_max (e ∷ es)) rs in
    ground (
      arith,
      take_shares-left (smallest_bet rs u32_max (e ∷ es)) 0 rs,
      elem-still_eligible rs' (e ∷ es) j,
      winnable_dropped fuel rs' (still_eligible rs' (e ∷ es)) j,
    )

-- An eligible player with a stake can win, from each other stake, as much as the player's own.
pub winnable-pots_loop :
    (fuel : ℕ) (rs es : List ℕ) (j : ℕ)
    → length es < fuel
    → sum rs < u32_max
    → elem j es ≡ true
    → 0 < get_or rs j 0
    → winnable j (pots_loop fuel rs es) ≡ capped_sum (get_or rs j 0) rs
winnable-pots_loop zero rs es j f h e p = absurd (omega arith)
winnable-pots_loop (suc fuel) rs [] j f h e p = cc
winnable-pots_loop (suc fuel) rs (e ∷ es) j f h el p =
    let m = smallest_bet rs u32_max (e ∷ es) in
    let rs' = lowered m rs in
    rw (pots_loop_round fuel rs e es h) (
      ground (
        arith,
        smallest_bet-le_elem rs u32_max (e ∷ es) j,
        get_or-le-sum rs j,
        capped_sum-zero rs',
        capped_sum-split m (get_or rs j 0) rs,
        get_or-lowered m rs j,
        sum-lowered-le m rs,
        elem-still_eligible rs' (e ∷ es) j,
        length-still_eligible rs m u32_max (e ∷ es),
        winnable_dropped fuel rs' (still_eligible rs' (e ∷ es)) j,
        winnable-pots_loop fuel rs' (still_eligible rs' (e ∷ es)) j,
      ))

get_or-stakes :
    (ps : List PotPlayerState) (j : ℕ) (p : PotPlayerState)
    → get_elem? ps j ≡ some p
    → get_or (stakes ps) j 0 ≡ p.contributed
get_or-stakes [] j p h = cc
get_or-stakes (q ∷ ps) zero p h = ground arith
get_or-stakes (q ∷ ps) (suc j) p h = get_or-stakes ps j p h

-- If the contributions add up to less than 2^32 - 1, a player who has put chips in and not folded is
-- eligible for pots of exactly the chips that the player's own contribution matches: the sum of all
-- contributions, each counted up to the player's.
pub winnable-compute_side_pots :
    (ps : List PotPlayerState) (j : ℕ) (p : PotPlayerState)
    → total_contributed ps < u32_max
    → get_elem? ps j ≡ some p
    → p.folded ≡ false
    → 0 < p.contributed
    → winnable j (compute_side_pots ps) ≡ sum_of (λ q. min q.contributed p.contributed) ps
unfolding compute_side_pots
winnable-compute_side_pots ps j p h e live pos =
    let es = eligible_from 0 ps in
    let here : elem j es ≡ true = ground (arith, elem-eligible_from 0 j ps p e) in
    let stake = get_or-stakes ps j p e in
    winnable-pots_loop (suc (length es)) (stakes ps) es j (omega arith) h here (omega arith)
    ∙ ap (λ t. capped_sum t (stakes ps)) stake
    ∙ capped_sum-stakes p.contributed ps

capped_sum_pos : (m : ℕ) (rs : List ℕ) → 0 < m → 0 < sum rs → 0 < capped_sum m rs
capped_sum_pos m [] hm h = h
capped_sum_pos m (r ∷ rs) hm h = ground (arith, capped_sum_pos m rs)

-- The first pot is open to all, also to those with nothing in it.
free_ride :
    (fuel : ℕ) (rs es : List ℕ) (j : ℕ)
    → sum rs < u32_max
    → elem j es ≡ true
    → 0 < top rs es
    → 0 < winnable j (pots_loop (suc fuel) rs es)
free_ride fuel rs [] j h el t = cc
free_ride fuel rs (e ∷ es) j h el t =
    let m = smallest_bet rs u32_max (e ∷ es) in
    rw (pots_loop_round fuel rs e es h) (
      ground (
        arith,
        smallest_bet_pos rs u32_max (e ∷ es),
        smallest_bet-top rs u32_max (e ∷ es),
        top-le-sum rs (e ∷ es),
        capped_sum_pos m rs,
      ))

matched_none : (k : ℕ) (ps : List PotPlayerState) → k ≡ 0 → sum_of (λ q. min q.contributed k) ps ≡ 0
matched_none k [] h = refl
matched_none k (q ∷ ps) h = omega (arith, matched_none k ps h)

-- A player who has put nothing in and not folded (one with no chips left is dealt in again) matches
-- no chips of anybody, and still is eligible for a pot that holds chips, as soon as some player who
-- has not folded has put chips in (and the contributions add up to less than 2^32 - 1).
pub compute_side_pots_free_ride :
    (ps : List PotPlayerState) (j : ℕ) (p : PotPlayerState)
    → total_contributed ps < u32_max
    → get_elem? ps j ≡ some p
    → p.folded ≡ false
    → p.contributed ≡ 0
    → 0 < highest_live ps
    → (sum_of (λ q. min q.contributed p.contributed) ps ≡ 0)
      × (0 < winnable j (compute_side_pots ps))
unfolding compute_side_pots
compute_side_pots_free_ride ps j p h e live none_put some_put =
    let es = eligible_from 0 ps in
    let here : elem j es ≡ true = ground (arith, elem-eligible_from 0 j ps p e) in
    (
      matched_none p.contributed ps none_put,
      free_ride (length es) (stakes ps) es j h here (rw (top-eligible ps) some_put),
    )
