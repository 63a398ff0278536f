-- ===== src/SidePots/Eligible.antt =====
-- Who is eligible for the pots, and that the loop's fuel is enough.
use ascii_poker.Prelude.{
  ℕ, zero, suc, ◌+◌, ◌≤◌, ◌<◌, ◌≡◌, refl, true, false, some, List, [], ◌∷◌, length, get_elem?, elem,
  Bool-cases, inl, inr, u32_max, arith, ◌==◌, not, All,
}
use ascii_poker.SidePots.{
  PotPlayerState, SidePot, smallest_bet, take_shares, still_eligible, pots_loop, compute_side_pots,
  eligible_from,
}
use ascii_poker.SidePots.Layers.{
  lowered, take_shares-left, smallest_bet-le, length-still_eligible, elem-still_eligible,
}
use ascii_poker.SidePots.Conservation.{stakes}

-- Any two amounts of fuel above the count of eligible players give the same pots.
pots_loop_fuel :
    (f g : ℕ) (rs es : List ℕ)
    → length es < f
    → length es < g
    → pots_loop f rs es ≡ pots_loop g rs es
unfolding pots_loop
pots_loop_fuel zero g rs es hf hg = absurd (omega arith)
pots_loop_fuel (suc f) zero rs es hf hg = absurd (omega arith)
pots_loop_fuel (suc f) (suc g) rs [] hf hg = refl
pots_loop_fuel (suc f) (suc g) rs (e ∷ es) hf hg =
    let m = smallest_bet rs u32_max (e ∷ es) in
    let rs' = lowered m rs in
    ground (
      arith,
      take_shares-left m 0 rs,
      smallest_bet-le rs u32_max (e ∷ es),
      length-still_eligible rs m u32_max (e ∷ es),
      pots_loop_fuel f g rs' (still_eligible rs' (e ∷ es)),
    )

-- The loop never runs out of fuel: `k` more rounds allowed give the same pots.
pub compute_side_pots_fuel :
    (k : ℕ) (ps : List PotPlayerState)
    → pots_loop (suc (length (eligible_from 0 ps)) + k) (stakes ps) (eligible_from 0 ps)
      ≡ compute_side_pots ps
unfolding compute_side_pots
compute_side_pots_fuel k ps =
    pots_loop_fuel (suc (length (eligible_from 0 ps)) + k) (suc (length (eligible_from 0 ps)))
      (stakes ps) (eligible_from 0 ps) (omega arith) (omega arith)

elem-eligible_below :
    (i j : ℕ) (ps : List PotPlayerState) → j < i → elem j (eligible_from i ps) ≡ false
unfolding eligible_from
elem-eligible_below i j [] h = refl
elem-eligible_below i j (p ∷ ps) h = ground (arith, elem-eligible_below (suc i) j ps)

-- A player is in the list of eligible players exactly when the player has not folded.
pub elem-eligible_from :
    (i k : ℕ) (ps : List PotPlayerState) (p : PotPlayerState)
    → get_elem? ps k ≡ some p
    → elem (i + k) (eligible_from i ps) ≡ not p.folded
unfolding eligible_from
elem-eligible_from i k [] p h = cc
elem-eligible_from i zero (q ∷ ps) p h = ground (arith, elem-eligible_below (suc i) (i + 0) ps)
elem-eligible_from i (suc k) (q ∷ ps) p h =
    let shift : i + suc k ≡ suc i + k = omega arith in
    rw shift (ground (arith, elem-eligible_below (suc i) i ps, elem-eligible_from (suc i) k ps p h))

pots_loop-elem :
    (fuel : ℕ) (rs es : List ℕ) (j : ℕ)
    → elem j es ≡ false
    → All (λ pot. elem j pot.eligible_player_indices ≡ false) (pots_loop fuel rs es)
unfolding pots_loop
pots_loop-elem zero rs es j h = tt
pots_loop-elem (suc fuel) rs [] j h = tt
pots_loop-elem (suc fuel) rs (e ∷ es) j h =
    let rs' = lowered (smallest_bet rs u32_max (e ∷ es)) rs in
    ground (
      arith,
      take_shares-left (smallest_bet rs u32_max (e ∷ es)) 0 rs,
      elem-still_eligible rs' (e ∷ es) j,
      pots_loop-elem fuel rs' (still_eligible rs' (e ∷ es)) j,
    )

-- A player who has folded is eligible for no pot.
pub compute_side_pots_folded :
    (ps : List PotPlayerState) (j : ℕ) (p : PotPlayerState)
    → get_elem? ps j ≡ some p
    → p.folded ≡ true
    → All (λ pot. elem j pot.eligible_player_indices ≡ false) (compute_side_pots ps)
unfolding compute_side_pots
compute_side_pots_folded ps j p h f =
    pots_loop-elem (suc (length (eligible_from 0 ps))) (stakes ps) (eligible_from 0 ps) j
      (ground (arith, elem-eligible_from 0 j ps p h))

-- Indices below `n`.
abbrev pub Below : ℕ → List ℕ → Type 0
Below n = All (λ i. i < n)

-- A pot that somebody can win: it has eligible players, with indices below `n`.
abbrev pub IsWinnable : ℕ → SidePot → Type 0
IsWinnable n pot = Below n pot.eligible_player_indices × (0 < length pot.eligible_player_indices)

still_eligible-Below : (n : ℕ) (rs es : List ℕ) → Below n es → Below n (still_eligible rs es)
unfolding still_eligible
still_eligible-Below n rs [] h = tt
still_eligible-Below n rs (e ∷ es) h = ground (arith, still_eligible-Below n rs es h.1)

pots_loop-IsWinnable :
    (n fuel : ℕ) (rs es : List ℕ) → Below n es → All (IsWinnable n) (pots_loop fuel rs es)
unfolding pots_loop
pots_loop-IsWinnable n zero rs es h = tt
pots_loop-IsWinnable n (suc fuel) rs [] h = tt
pots_loop-IsWinnable n (suc fuel) rs (e ∷ es) h =
    let m = smallest_bet rs u32_max (e ∷ es) in
    let left = (take_shares m 0 rs).1 in
    let rest =
      pots_loop-IsWinnable n fuel left (still_eligible left (e ∷ es))
        (still_eligible-Below n left (e ∷ es) h) in
    elim (Bool-cases (m == u32_max)) [ inl e ↦ rw e tt | inr e ↦ rw e ((h, omega arith), rest) ]

eligible_from-Below :
    (i n : ℕ) (ps : List PotPlayerState) → i + length ps ≤ n → Below n (eligible_from i ps)
unfolding eligible_from
eligible_from-Below i n [] h = tt
eligible_from-Below i n (p ∷ ps) h =
    let rest = eligible_from-Below (suc i) n ps (omega arith) in
    elim (Bool-cases p.folded) [ inl e ↦ rw e rest | inr e ↦ rw e (omega arith, rest) ]

-- Every pot has an eligible player, and only players of the hand.
pub compute_side_pots-IsWinnable :
    (ps : List PotPlayerState) → All (IsWinnable (length ps)) (compute_side_pots ps)
unfolding compute_side_pots
compute_side_pots-IsWinnable ps =
    pots_loop-IsWinnable (length ps) (suc (length (eligible_from 0 ps))) (stakes ps)
      (eligible_from 0 ps) (eligible_from-Below 0 (length ps) ps (omega arith))
