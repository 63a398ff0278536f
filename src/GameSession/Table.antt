-- ===== src/GameSession/Table.antt =====
-- The chips on the table, counted over the seated players.
use ascii_poker.Prelude.{
  ℕ, ◌+◌, ◌≤◌, ◌<◌, ◌≡◌, refl, true, false, List, [], ◌∷◌, some, elem, sum_of, at_key, assign, Map,
  u32_max, arith, ℕ_discrete, ap, at_key-assign,
}
use ascii_poker.GameSession.State.{GameSession}

-- No player sits twice.
abbrev pub Distinct : List ℕ → Type 0
Distinct [] = Unit
Distinct (p ∷ ps) = (elem p ps ≡ false) × Distinct ps

-- The sum of a map over the listed players.
abbrev pub sum_at : Map ℕ → List ℕ → ℕ
sum_at m = sum_of (at_key m)

sum_at-assign_other :
    (m : Map ℕ) (k v : ℕ) (ps : List ℕ)
    → elem k ps ≡ false
    → sum_at (assign m k (some v)) ps ≡ sum_at m ps
sum_at-assign_other m k v [] h = refl
sum_at-assign_other m k v (p ∷ ps) h =
    ground (arith, at_key-assign m k v p, sum_at-assign_other m k v ps)

-- An assignment at a seated player changes the sum by what it changes there.
pub sum_at-assign :
    (m : Map ℕ) (k v : ℕ) (ps : List ℕ)
    → Distinct ps
    → elem k ps ≡ true
    → sum_at (assign m k (some v)) ps + at_key m k ≡ sum_at m ps + v
sum_at-assign m k v [] d h = cc
sum_at-assign m k v (p ∷ ps) d h = elim (ℕ_discrete k p) [
  | yes same ↦
      let gone : elem k ps ≡ false = rw same d.0 in
      ground (arith, at_key-assign m k v p, sum_at-assign_other m k v ps gone, ap (at_key m) same)
  | no other ↦ ground (arith, at_key-assign m k v p, sum_at-assign m k v ps d.1)
]

pub at_key-le-sum_at :
    (m : Map ℕ) (k : ℕ) (ps : List ℕ) → elem k ps ≡ true → at_key m k ≤ sum_at m ps
at_key-le-sum_at m k [] h = cc
at_key-le-sum_at m k (p ∷ ps) h = elim (ℕ_discrete k p) [
  | yes same ↦ omega (arith, ap (at_key m) same)
  | no other ↦ ground (arith, at_key-le-sum_at m k ps)
]

-- All chips: the stacks and the pot.
abbrev pub table_total : GameSession → ℕ
table_total s = sum_at s.chips s.players + s.pot

-- No player sits twice, all chips together fit a uint32_t, and the pot holds at least what the
-- seated players have put in. (It holds more when a player has left during the hand.)
pub record IsBalanced (s : GameSession) : Type 0 where
  pub distinct : Distinct s.players
  pub bounded : table_total s < u32_max
  pub contributed_within : sum_at s.total_contributed s.players ≤ s.pot
