-- ===== src/Prelude/Maps.antt =====
-- `std::unordered_map` and `std::unordered_set` keyed by a pointer: the pointer is a number, a map
-- is a function into `Option` and a set a function into `Bool`. No part of the program depends on
-- an iteration order of these.
use Prim.Native.Nat.{ℕ}
use mathlib.Core.Path.{◌≡◌}
use mathlib.Core.Bool.{Bool, true, false}
use mathlib.Core.Option.{Option, none, some}
use native.Mathlib.Omega.{arith}
use mathlib.Core.Path.{refl}
use ascii_poker.Prelude.Tests.{◌==◌, if◌then◌else◌}

abbrev pub Map : Type 0 → Type 0
Map V = ℕ → Option V

abbrev pub Set : Type 0
Set = ℕ → Bool

-- `m[k] = v`, and `s.insert(k)` with `v` true or `s.erase(k)` with `v` false.
unfoldable pub assign : {V : Type 0} → (ℕ → V) → ℕ → V → ℕ → V
assign m k v j = if j == k then v else m j

abbrev pub value_or_0 : Option ℕ → ℕ
value_or_0 none = 0
value_or_0 (some v) = v

-- `m[k]` of a map of numbers: a missing key reads as 0.
unfoldable pub at_key : Map ℕ → ℕ → ℕ
at_key m k = value_or_0 (m k)

abbrev pub empty_map : {V : Type 0} → Map V
empty_map k = none

abbrev pub empty_set : Set
empty_set k = false

pub assign_lem :
    {V : Type 0} (m : ℕ → V) (k : ℕ) (v : V) (j : ℕ) → assign m k v j ≡ (if j == k then v else m j)
unfolding assign
assign_lem m k v j = refl

value_or_0-if :
    (b : Bool) (x y : Option ℕ)
    → value_or_0 (if b then x else y) ≡ (if b then value_or_0 x else value_or_0 y)
value_or_0-if true x y = refl
value_or_0-if false x y = refl

pub at_key-assign :
    (m : Map ℕ) (k v j : ℕ) → at_key (assign m k (some v)) j ≡ (if j == k then v else at_key m j)
unfolding assign at_key
at_key-assign m k v j = value_or_0-if (j == k) (some v) (m j)

pub at_key-assign_self : (m : Map ℕ) (k v : ℕ) → at_key (assign m k (some v)) k ≡ v
at_key-assign_self m k v = ground (arith, at_key-assign m k v k)
