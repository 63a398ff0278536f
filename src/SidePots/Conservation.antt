-- ===== src/SidePots/Conservation.antt =====
-- What the pots add up to.
use ascii_poker.Prelude.{
  ℕ, zero, suc, ◌+◌, ◌≤◌, ◌<◌, ◌≡◌, refl, List, [], ◌∷◌, map, min, max, length, sum, sum_of, All,
  ◌↔◌, u32_max, arith, if◌then◌else◌, ◌==◌, ◌∙◌, ap, sym,
}
use ascii_poker.SidePots.{
  PotPlayerState, SidePot, smallest_bet, still_eligible, pots_loop, compute_side_pots,
  eligible_from,
}
use ascii_poker.SidePots.Layers.{
  lowered, capped_sum, top, take_shares_lem, smallest_bet-top, smallest_bet-le,
  length-still_eligible, top-lowered, sum-lowered-le, capped_sum-zero, capped_sum-split, top-le-sum,
}

abbrev pub total_of : List SidePot → ℕ
total_of = sum_of (λ pot. pot.amount)

-- One round, for stakes that do not overflow: the loop ends, or one layer comes off.
pub pots_loop_round :
    (fuel : ℕ) (rs : List ℕ) (e : ℕ) (es : List ℕ)
    → sum rs < u32_max
    → let m = smallest_bet rs u32_max (e ∷ es) in
      pots_loop (suc fuel) rs (e ∷ es) ≡ (
        if m == u32_max
        then []
        else record { amount = capped_sum m rs; eligible_player_indices = e ∷ es }
          ∷ pots_loop fuel (lowered m rs) (still_eligible (lowered m rs) (e ∷ es)))
unfolding pots_loop
pots_loop_round fuel rs e es h =
    ground (arith, take_shares_lem (smallest_bet rs u32_max (e ∷ es)) 0 rs)

-- With fuel for every eligible player, the pots hold each stake up to the largest eligible one.
pub total-pots_loop :
    (fuel : ℕ) (rs es : List ℕ)
    → length es < fuel
    → sum rs < u32_max
    → total_of (pots_loop fuel rs es) ≡ capped_sum (top rs es) rs
total-pots_loop zero rs es f h = absurd (omega arith)
total-pots_loop (suc fuel) rs [] f h = unfold pots_loop in sym (capped_sum-zero rs)
total-pots_loop (suc fuel) rs (e ∷ es) f h =
    let m = smallest_bet rs u32_max (e ∷ es) in
    let t = top rs (e ∷ es) in
    rw (pots_loop_round fuel rs e es h) (
      ground (
        arith,
        smallest_bet-top rs u32_max (e ∷ es),
        smallest_bet-le rs u32_max (e ∷ es),
        top-le-sum rs (e ∷ es),
        capped_sum-zero rs,
        capped_sum-split m t rs,
        top-lowered rs m (e ∷ es),
        sum-lowered-le m rs,
        length-still_eligible rs m u32_max (e ∷ es),
        total-pots_loop fuel (lowered m rs) (still_eligible (lowered m rs) (e ∷ es)),
      ))

-- The largest stake of a player who has not folded, 0 if there is none.
abbrev pub highest_live : List PotPlayerState → ℕ
highest_live [] = 0
highest_live (p ∷ ps) = max (if p.folded then 0 else p.contributed) (highest_live ps)

abbrev pub stakes : List PotPlayerState → List ℕ
stakes = map (λ p. p.contributed)

abbrev pub total_contributed : List PotPlayerState → ℕ
total_contributed ps = sum (stakes ps)

top-eligible_shift :
    (r : ℕ) (rs : List ℕ) (i : ℕ) (ps : List PotPlayerState)
    → top (r ∷ rs) (eligible_from (suc i) ps) ≡ top rs (eligible_from i ps)
unfolding eligible_from
top-eligible_shift r rs i [] = refl
top-eligible_shift r rs i (p ∷ ps) = ground (arith, top-eligible_shift r rs (suc i) ps)

pub top-eligible :
    (ps : List PotPlayerState) → top (stakes ps) (eligible_from 0 ps) ≡ highest_live ps
unfolding eligible_from
top-eligible [] = refl
top-eligible (p ∷ ps) =
    ground (arith, top-eligible_shift p.contributed (stakes ps) 0 ps, top-eligible ps)

pub capped_sum-stakes :
    (m : ℕ) (ps : List PotPlayerState)
    → capped_sum m (stakes ps) ≡ sum_of (λ p. min p.contributed m) ps
capped_sum-stakes m [] = refl
capped_sum-stakes m (p ∷ ps) = ap (◌+◌ (min p.contributed m)) (capped_sum-stakes m ps)

-- If the contributions add up to less than 2^32 - 1, the pots add up to the players' contributions,
-- each counted up to the largest contribution of a player who has not folded.
pub total-compute_side_pots :
    (ps : List PotPlayerState)
    → total_contributed ps < u32_max
    → total_of (compute_side_pots ps) ≡ sum_of (λ p. min p.contributed (highest_live ps)) ps
unfolding compute_side_pots
total-compute_side_pots ps h =
    total-pots_loop (suc (length (eligible_from 0 ps))) (stakes ps) (eligible_from 0 ps)
      (omega arith) h
    ∙ ap (λ t. capped_sum t (stakes ps)) (top-eligible ps)
    ∙ capped_sum-stakes (highest_live ps) ps

-- No player's contribution exceeds the bound.
abbrev pub IsCovered : ℕ → List PotPlayerState → Type 0
IsCovered m = All (λ p. p.contributed ≤ m)

pub capped-IsCovered :
    (m : ℕ) (ps : List PotPlayerState)
    → (IsCovered m ps → sum_of (λ p. min p.contributed m) ps ≡ total_contributed ps)
      × (sum_of (λ p. min p.contributed m) ps ≡ total_contributed ps → IsCovered m ps)
      × (sum_of (λ p. min p.contributed m) ps ≤ total_contributed ps)
capped-IsCovered m [] = (λ _. refl, λ _. tt, omega arith)
capped-IsCovered m (p ∷ ps) =
    let (to, from, le) = capped-IsCovered m ps in
    (λ c. omega (arith, to c.1), λ e. (omega arith, from (omega arith)), omega arith)

-- If the contributions add up to less than 2^32 - 1, the pots hold all contributed chips exactly
-- when no player, folded or not, has contributed more than the largest contribution of a player who
-- has not folded.
pub compute_side_pots_conserves :
    (ps : List PotPlayerState)
    → total_contributed ps < u32_max
    → (total_of (compute_side_pots ps) ≡ total_contributed ps) ↔ IsCovered (highest_live ps) ps
compute_side_pots_conserves ps h =
    let (to, from, _) = capped-IsCovered (highest_live ps) ps in
    (λ e. from (sym (total-compute_side_pots ps h) ∙ e), λ c. total-compute_side_pots ps h ∙ to c)

-- If the contributions add up to less than 2^32 - 1, the pots never hold more than was contributed.
pub total-compute_side_pots-le :
    (ps : List PotPlayerState)
    → total_contributed ps < u32_max
    → total_of (compute_side_pots ps) ≤ total_contributed ps
total-compute_side_pots-le ps h =
    rw (total-compute_side_pots ps h) (capped-IsCovered (highest_live ps) ps).2
