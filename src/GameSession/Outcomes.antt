-- ===== src/GameSession/Outcomes.antt =====
-- Calls that return, with a result of which a predicate holds; and calls that do not throw.
use ascii_poker.Prelude.{arith, refl, ◌≡◌, Bool, true, false, if◌then◌else◌}
use ascii_poker.GameSession.State.{Outcome, returns, out_of_range, out_of_fuel, ◌>>=◌}

-- The call returns, and `P` holds of its result.
abbrev pub Returns {ℓ} : {A : Type ℓ} → (A → Type 0) → Outcome A → Type 0
Returns P (returns a) = P a
Returns P out_of_range = ⊥
Returns P out_of_fuel = ⊥

-- The call throws nothing: with enough fuel it returns, and `P` holds of its result.
abbrev pub NeverThrows {ℓ} : {A : Type ℓ} → (A → Type 0) → Outcome A → Type 0
NeverThrows P (returns a) = P a
NeverThrows P out_of_range = ⊥
NeverThrows P out_of_fuel = Unit

module _ {ℓ κ} {A : Type ℓ} {B : Type κ} (P : A → Type 0) (Q : B → Type 0) where
  pub Returns->>= :
      (m : Outcome A) (f : A → Outcome B)
      → Returns P m
      → ((a : A) → P a → Returns Q (f a))
      → Returns Q (m >>= f)
  Returns->>= (returns a) f h k = k a h
  Returns->>= out_of_range f h k = absurd h
  Returns->>= out_of_fuel f h k = absurd h

  pub NeverThrows->>= :
      (m : Outcome A) (f : A → Outcome B)
      → NeverThrows P m
      → ((a : A) → P a → NeverThrows Q (f a))
      → NeverThrows Q (m >>= f)
  NeverThrows->>= (returns a) f h k = k a h
  NeverThrows->>= out_of_range f h k = absurd h
  NeverThrows->>= out_of_fuel f h k = tt

  pub Returns-NeverThrows->>= :
      (m : Outcome A) (f : A → Outcome B)
      → Returns P m
      → ((a : A) → P a → NeverThrows Q (f a))
      → NeverThrows Q (m >>= f)
  Returns-NeverThrows->>= (returns a) f h k = k a h
  Returns-NeverThrows->>= out_of_range f h k = absurd h
  Returns-NeverThrows->>= out_of_fuel f h k = absurd h

module _ {ℓ} {A : Type ℓ} (P Q : A → Type 0) where
  pub Returns-weaken : (m : Outcome A) → ((a : A) → P a → Q a) → Returns P m → Returns Q m
  Returns-weaken (returns a) f h = f a h
  Returns-weaken out_of_range f h = h
  Returns-weaken out_of_fuel f h = h

module _ {ℓ} {A : Type ℓ} (P : A → Type 0) where
  pub NeverThrows-if :
      (b : Bool) (x y : Outcome A)
      → NeverThrows P x
      → NeverThrows P y
      → NeverThrows P (if b then x else y)
  NeverThrows-if true x y h k = h
  NeverThrows-if false x y h k = k

module _ {ℓ} {A : Type ℓ} (P Q : A → Type 0) where
  pub Returns-NeverThrows : (m : Outcome A) → ((a : A) → P a → Q a) → Returns P m → NeverThrows Q m
  Returns-NeverThrows (returns a) f h = f a h
  Returns-NeverThrows out_of_range f h = h
  Returns-NeverThrows out_of_fuel f h = tt

  pub NeverThrows-weaken :
      (m : Outcome A) → ((a : A) → P a → Q a) → NeverThrows P m → NeverThrows Q m
  NeverThrows-weaken (returns a) f h = f a h
  NeverThrows-weaken out_of_range f h = h
  NeverThrows-weaken out_of_fuel f h = tt

module _ {ℓ} {A : Type ℓ} (P : A → Type 0) where
  -- The second branch may use that the test has failed.
  pub NeverThrows-unless :
      (b : Bool) (x y : Outcome A)
      → NeverThrows P x
      → (b ≡ false → NeverThrows P y)
      → NeverThrows P (if b then x else y)
  NeverThrows-unless true x y h k = h
  NeverThrows-unless false x y h k = k refl

-- If the call returns, `P` holds of its result.
abbrev pub OnReturn {ℓ} : {A : Type ℓ} → (A → Type 0) → Outcome A → Type 0
OnReturn P (returns a) = P a
OnReturn P out_of_range = Unit
OnReturn P out_of_fuel = Unit

module _ {ℓ κ} {A : Type ℓ} {B : Type κ} (P : A → Type 0) (Q : B → Type 0) where
  pub OnReturn->>= :
      (m : Outcome A) (f : A → Outcome B)
      → OnReturn P m
      → ((a : A) → P a → OnReturn Q (f a))
      → OnReturn Q (m >>= f)
  OnReturn->>= (returns a) f h k = k a h
  OnReturn->>= out_of_range f h k = tt
  OnReturn->>= out_of_fuel f h k = tt

module _ {ℓ κ} {A : Type ℓ} {B : Type κ} (Q : B → Type 0) where
  pub OnReturn-any :
      (m : Outcome A) (f : A → Outcome B) → ((a : A) → OnReturn Q (f a)) → OnReturn Q (m >>= f)
  OnReturn-any (returns a) f k = k a
  OnReturn-any out_of_range f k = tt
  OnReturn-any out_of_fuel f k = tt

module _ {ℓ} {A : Type ℓ} (P Q : A → Type 0) where
  pub NeverThrows-and :
      (m : Outcome A) → NeverThrows P m → OnReturn Q m → NeverThrows (λ a. P a × Q a) m
  NeverThrows-and (returns a) h k = (h, k)
  NeverThrows-and out_of_range h k = h
  NeverThrows-and out_of_fuel h k = tt

module _ {ℓ} {A : Type ℓ} (P : A → Type 0) where
  pub OnReturn-if :
      (b : Bool) (x y : Outcome A) → OnReturn P x → OnReturn P y → OnReturn P (if b then x else y)
  OnReturn-if true x y h k = h
  OnReturn-if false x y h k = k

  -- A test that fails.
  pub OnReturn-else :
      (b : Bool) (x y : Outcome A) → b ≡ false → OnReturn P y → OnReturn P (if b then x else y)
  OnReturn-else true x y e h = absurd (ground arith)
  OnReturn-else false x y e h = h
