-- ===== src/Auth.antt =====
-- common/include/poker/auth.h and common/src/auth.cpp: names and passwords, as lists of bytes. The
-- character classes of the C library are parameters.
pub mod Rules
mod Tests
use ascii_poker.Prelude.{
  ℕ, Bool, true, false, not, ◌&&◌, ◌||◌, List, [], ◌∷◌, ◌++◌, length, ltb, all_of, if◌then◌else◌,
}

-- `std::isspace`, `std::iscntrl`, `std::isalpha` and `std::isdigit`.
pub record CharacterClasses : Type 0 where
  pub is_space : ℕ → Bool
  pub is_cntrl : ℕ → Bool
  pub is_alpha : ℕ → Bool
  pub is_digit : ℕ → Bool

abbrev pub min_username_length : ℕ
min_username_length = 1

abbrev pub max_username_length : ℕ
max_username_length = 32

abbrev pub min_password_length : ℕ
min_password_length = 4

abbrev pub max_password_length : ℕ
max_password_length = 128

module _ (classes : CharacterClasses) where
  open classes use {is_space, is_cntrl, is_alpha, is_digit}

  -- The first `erase`: the bytes from the first one on that is no space.
  unfoldable pub trim_front : List ℕ → List ℕ
  trim_front [] = []
  trim_front (c ∷ cs) = let rest = trim_front cs in if is_space c then rest else c ∷ cs

  -- The second: the bytes up to the last one that is no space.
  unfoldable pub trim_back : List ℕ → List ℕ
  trim_back [] = []
  trim_back (c ∷ cs) =
      let rest = trim_back cs in
      elim rest [ [] ↦ if is_space c then [] else c ∷ [] | d ∷ ds ↦ c ∷ d ∷ ds ]

  unfoldable pub trim_copy : List ℕ → List ℕ
  unfolding trim_front trim_back
  trim_copy value = trim_back (trim_front value)

  -- The loop over the characters of a name.
  unfoldable pub no_cntrl : List ℕ → Bool
  no_cntrl [] = true
  no_cntrl (c ∷ cs) = let rest = no_cntrl cs in if is_cntrl c then false else rest

  unfoldable pub is_valid_username : List ℕ → Bool
  unfolding no_cntrl
  is_valid_username username =
      let size = length username in
      if ltb size min_username_length || ltb max_username_length size
      then false
      else no_cntrl username

  -- The loop over the characters of a password, with `has_letter` and `has_digit`.
  unfoldable pub password_loop : Bool → Bool → List ℕ → Bool
  password_loop has_letter has_digit [] = has_letter && has_digit
  password_loop has_letter has_digit (c ∷ cs) =
      let rest =
        password_loop (if is_alpha c then true else has_letter)
          (if is_alpha c then has_digit else if is_digit c then true else has_digit) cs in
      if is_cntrl c then false else rest

  unfoldable pub is_valid_password : List ℕ → Bool
  unfolding password_loop
  is_valid_password password =
      let size = length password in
      if ltb size min_password_length || ltb max_password_length size
      then false
      else password_loop false false password
