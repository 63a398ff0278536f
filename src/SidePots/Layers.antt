-- ===== src/SidePots/Layers.antt =====
-- One round of the loop: what `min_bet` is, and what it takes from the stakes.
use ascii_poker.Prelude.{
  ℕ, zero, suc, ◌+◌, ◌-◌, ◌≤◌, ◌<◌, ◌≡◌, refl, ap, ◌⊎◌, inl, List, [], ◌∷◌, map, min, max, get_or,
  length, sum, sum_of, u32_max, arith, ltb, length-keep_if-le, elem, true, ◌%◌, ◌&&◌, ℕ_discrete,
}
use ascii_poker.SidePots.{smallest_bet, take_shares, still_eligible}

-- What the layer below `m` holds of a stake, and what it leaves.
abbrev pub lowered : ℕ → List ℕ → List ℕ
lowered m = map (λ r. r - m)

-- The sum of the stakes, each capped at `m`.
abbrev pub capped_sum : ℕ → List ℕ → ℕ
capped_sum m = sum_of (λ r. min r m)

-- The largest stake of the listed players.
abbrev pub top : List ℕ → List ℕ → ℕ
top rs [] = 0
top rs (e ∷ es) = max (get_or rs e 0) (top rs es)

pub take_shares_lem :
    (m amount : ℕ) (rs : List ℕ)
    → amount + sum rs < u32_max
    → take_shares m amount rs ≡ (amount + capped_sum m rs, lowered m rs)
unfolding take_shares
take_shares_lem m amount [] h = ground arith
take_shares_lem m amount (r ∷ rs) h =
    ground (arith, take_shares_lem m amount rs, take_shares_lem m (amount + min r m) rs)

pub get_or-lowered : (m : ℕ) (rs : List ℕ) (i : ℕ) → get_or (lowered m rs) i 0 ≡ get_or rs i 0 - m
get_or-lowered m [] i = omega arith
get_or-lowered m (r ∷ rs) zero = refl
get_or-lowered m (r ∷ rs) (suc i) = get_or-lowered m rs i

pub get_or-le-sum : (rs : List ℕ) (i : ℕ) → get_or rs i 0 ≤ sum rs
get_or-le-sum [] i = omega arith
get_or-le-sum (r ∷ rs) zero = omega arith
get_or-le-sum (r ∷ rs) (suc i) = omega (arith, get_or-le-sum rs i)

pub smallest_bet-le : (rs : List ℕ) (m : ℕ) (es : List ℕ) → smallest_bet rs m es ≤ m
unfolding smallest_bet
smallest_bet-le rs m [] = omega arith
smallest_bet-le rs m (e ∷ es) =
    ground (arith, smallest_bet-le rs m es, smallest_bet-le rs (min m (get_or rs e 0)) es)

pub smallest_bet_pos : (rs : List ℕ) (m : ℕ) (es : List ℕ) → 0 < m → 0 < smallest_bet rs m es
unfolding smallest_bet
smallest_bet_pos rs m [] h = h
smallest_bet_pos rs m (e ∷ es) h =
    ground (arith, smallest_bet_pos rs m es, smallest_bet_pos rs (min m (get_or rs e 0)) es)

-- The bound stays as it was only if no listed player has a stake below it.
pub smallest_bet-top :
    (rs : List ℕ) (m : ℕ) (es : List ℕ)
    → top rs es < m
    → ((smallest_bet rs m es ≡ m) × (top rs es ≡ 0)) ⊎ (smallest_bet rs m es ≤ top rs es)
unfolding smallest_bet
smallest_bet-top rs m [] h = inl (refl, refl)
smallest_bet-top rs m (e ∷ es) h = ground (
  arith,
  smallest_bet-top rs m es,
  smallest_bet-le rs (min m (get_or rs e 0)) es,
  smallest_bet-le rs m es,
)

-- With a stake at or below `m` among the eligible, the round drops a player.
pub length-still_eligible :
    (rs : List ℕ) (m bound : ℕ) (es : List ℕ)
    → smallest_bet rs bound es ≤ m
    → m < bound
    → length (still_eligible (lowered m rs) es) < length es
unfolding smallest_bet still_eligible
length-still_eligible rs m bound [] h b = absurd (omega arith)
length-still_eligible rs m bound (e ∷ es) h b = ground (
  arith,
  get_or-lowered m rs e,
  length-keep_if-le (λ i. ltb 0 (get_or (lowered m rs) i 0)) es,
  length-still_eligible rs m bound es,
  length-still_eligible rs m (min bound (get_or rs e 0)) es,
)

-- Dropping the players with nothing left does not change the largest stake.
pub top-lowered :
    (rs : List ℕ) (m : ℕ) (es : List ℕ)
    → top (lowered m rs) (still_eligible (lowered m rs) es) ≡ top rs es - m
unfolding still_eligible
top-lowered rs m [] = omega arith
top-lowered rs m (e ∷ es) = ground (arith, get_or-lowered m rs e, top-lowered rs m es)

pub sum-lowered-le : (m : ℕ) (rs : List ℕ) → sum (lowered m rs) ≤ sum rs
sum-lowered-le m [] = omega arith
sum-lowered-le m (r ∷ rs) = omega (arith, sum-lowered-le m rs)

pub capped_sum-zero : (rs : List ℕ) → capped_sum 0 rs ≡ 0
capped_sum-zero [] = refl
capped_sum-zero (r ∷ rs) = omega (arith, capped_sum-zero rs)

-- A layer of height `m` and the layers above it.
pub capped_sum-split :
    (m k : ℕ) (rs : List ℕ)
    → m ≤ k
    → capped_sum k rs ≡ capped_sum m rs + capped_sum (k - m) (lowered m rs)
capped_sum-split m k [] h = omega arith
capped_sum-split m k (r ∷ rs) h = omega (arith, capped_sum-split m k rs h)

pub top-le-sum : (rs es : List ℕ) → top rs es ≤ sum rs
top-le-sum rs [] = omega arith
top-le-sum rs (e ∷ es) = omega (arith, get_or-le-sum rs e, top-le-sum rs es)

pub take_shares-left : (m amount : ℕ) (rs : List ℕ) → (take_shares m amount rs).1 ≡ lowered m rs
unfolding take_shares
take_shares-left m amount [] = refl
take_shares-left m amount (r ∷ rs) =
    ground
      (arith, take_shares-left m amount rs, take_shares-left m ((amount + min r m) % 4294967296) rs)

-- A player that is eligible with something at stake bounds the layer.
pub smallest_bet-le_elem :
    (rs : List ℕ) (bound : ℕ) (es : List ℕ) (j : ℕ)
    → elem j es ≡ true
    → 0 < get_or rs j 0
    → smallest_bet rs bound es ≤ get_or rs j 0
unfolding smallest_bet
smallest_bet-le_elem rs bound [] j h p = cc
smallest_bet-le_elem rs bound (e ∷ es) j h p = elim (ℕ_discrete j e) [
  | yes same ↦
      ground (
        arith,
        ap (λ (t : ℕ). get_or rs t 0) same,
        smallest_bet-le rs (min bound (get_or rs e 0)) es,
      )
  | no other ↦ ground (
    arith,
    smallest_bet-le_elem rs bound es j,
    smallest_bet-le_elem rs (min bound (get_or rs e 0)) es j,
  )
]

pub elem-still_eligible :
    (rs es : List ℕ) (j : ℕ) → elem j (still_eligible rs es) ≡ (elem j es && ltb 0 (get_or rs j 0))
unfolding still_eligible
elem-still_eligible rs [] j = refl
elem-still_eligible rs (e ∷ es) j = elim (ℕ_discrete j e) [
  | yes same ↦ rw (← same) (ground (arith, elem-still_eligible rs es j))
  | no other ↦ ground (arith, elem-still_eligible rs es j)
]
