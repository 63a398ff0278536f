-- ===== src/Protocol/Json.antt =====
-- What the codecs of common/src/protocol.cpp use of the library nlohmann::json: values, `at`, `get`,
-- `contains`, and assignment to a key. An exception is `none`.
use Prim.Native.String.{String}
use text.Mathlib.Text.{◌==◌ as str_eq}
use ascii_poker.Prelude.{
  ℕ, ◌%◌, ◌^◌, ◌≡◌, refl, Bool, true, false, List, [], ◌∷◌, map, Option, none, some, All,
  if◌then◌else◌,
}

infixl 5 ◌>>=◌
abbrev pub ◌>>=◌ {ℓ κ} : {A : Type ℓ} {B : Type κ} → Option A → (A → Option B) → Option B
none >>= f = none
some a >>= f = f a

module _ {ℓ} {V : Type ℓ} where
  -- The value of a key, and the list with a value given to a key.
  abbrev pub lookup : String → List (String × V) → Option V
  lookup k [] = none
  lookup k ((j, v) ∷ m) = let rest = lookup k m in if str_eq j k then some v else rest

  abbrev pub assign_key : String → V → List (String × V) → List (String × V)
  assign_key k v [] = (k, v) ∷ []
  assign_key k v ((j, w) ∷ m) =
      let rest = assign_key k v m in if str_eq j k then (j, v) ∷ m else (j, w) ∷ rest

-- The library, with what its documentation says of the operations used.
pub record JsonLibrary : Type 1 where
  pub Json : Type 0
  pub object : List (String × Json) → Json
  pub array : List Json → Json
  pub string : String → Json
  pub number : ℕ → Json
  pub boolean : Bool → Json
  pub null : Json
  -- `j.at(key)`, and `j[key] = value`.
  pub at : String → Json → Option Json
  pub set_key : String → Json → Json → Json
  -- `j.get<T>()` for a string, an integer of the given number of bits, a bool, and a vector of values.
  pub get_string : Json → Option String
  pub get_word : ℕ → Json → Option ℕ
  pub get_bool : Json → Option Bool
  pub get_items : Json → Option (List Json)
  pub is_null : Json → Bool
  -- What a `for` loop over the value runs through.
  pub elements : Json → List Json
  pub at-object :
      (k : String) (fields : List (String × Json)) → at k (object fields) ≡ lookup k fields
  pub set_key-object :
      (k : String) (v : Json) (fields : List (String × Json))
      → set_key k v (object fields) ≡ object (assign_key k v fields)
  pub set_key-null : (k : String) (v : Json) → set_key k v null ≡ object ((k, v) ∷ [])
  pub get_string-string : (s : String) → get_string (string s) ≡ some s
  -- An integer that the type cannot hold wraps.
  pub get_word-number : (bits n : ℕ) → get_word bits (number n) ≡ some (n % 2 ^ bits)
  pub get_bool-boolean : (b : Bool) → get_bool (boolean b) ≡ some b
  pub get_items-array : (items : List Json) → get_items (array items) ≡ some items
  pub elements-array : (items : List Json) → elements (array items) ≡ items
  pub is_null-null : is_null null ≡ true
  pub is_null-number : (n : ℕ) → is_null (number n) ≡ false

-- The values that a vector is read from, each by the same function.
abbrev pub read_all {ℓ κ} : {A : Type ℓ} {B : Type κ} → (A → Option B) → List A → Option (List B)
read_all get [] = some []
read_all get (x ∷ xs) = get x >>= λ y. read_all get xs >>= λ ys. some (y ∷ ys)

pub read_all-map {ℓ κ μ} :
    {A : Type ℓ} {B : Type κ} (Fits : B → Type μ) (get : A → Option B) (put : B → A)
    → ((y : B) → Fits y → get (put y) ≡ some y)
    → (ys : List B) → All Fits ys
    → read_all get (map put ys) ≡ some ys
read_all-map Fits get put back [] h = refl
read_all-map Fits get put back (y ∷ ys) h = simp (back y h.0, read_all-map Fits get put back ys h.1)

pub read_all-map_total {ℓ κ} :
    {A : Type ℓ} {B : Type κ} (get : A → Option B) (put : B → A)
    → ((y : B) → get (put y) ≡ some y)
    → (ys : List B) → read_all get (map put ys) ≡ some ys
read_all-map_total get put back [] = refl
read_all-map_total get put back (y ∷ ys) = simp (back y, read_all-map_total get put back ys)

module _ (library : JsonLibrary) where
  open library use {Json, at, null, number, is_null, get_word, array, get_items}

  -- `if (j.contains(key)) j.at(key).get_to(x) else x = other`.
  abbrev pub field_or {ℓ} : {A : Type ℓ} → String → (Json → Option A) → A → Json → Option A
  field_or k get other j = elim (at k j) [ none ↦ some other | some v ↦ get v ]

  -- A number, or null for no number, and how it is read: no number if the key is missing.
  abbrev pub optional_number : Option ℕ → Json
  optional_number none = null
  optional_number (some n) = number n

  abbrev pub optional_amount : Json → Option (Option ℕ)
  optional_amount j = elim (at "amount" j) [
    | none ↦ some none
    | some v ↦ if is_null v then some none else (get_word 32 v >>= λ n. some (some n))
  ]

  abbrev pub get_vector {ℓ} : {A : Type ℓ} → (Json → Option A) → Json → Option (List A)
  get_vector get j = get_items j >>= read_all get
