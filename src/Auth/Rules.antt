-- ===== src/Auth/Rules.antt =====
-- What names and passwords are accepted.
use ascii_poker.Prelude.{
  ℕ, ◌≡◌, Bool, true, false, not, ◌&&◌, ◌||◌, List, [], ◌∷◌, length, leb, all_of, if◌then◌else◌,
  arith,
}
use ascii_poker.Auth.{
  CharacterClasses, min_password_length, max_password_length, password_loop, is_valid_password,
}

-- Some element passes a test.
abbrev pub some_of : (ℕ → Bool) → List ℕ → Bool
some_of p [] = false
some_of p (c ∷ cs) = p c || some_of p cs

module _ (classes : CharacterClasses) where
  open classes use {is_cntrl, is_alpha, is_digit}

  -- Only digits, and no control characters.
  abbrev pub is_plain_digit : ℕ → Bool
  is_plain_digit c = not (is_alpha c) && is_digit c

  abbrev pub is_printable : ℕ → Bool
  is_printable c = not (is_cntrl c)

  password_loop_lem :
      (letter digit : Bool) (cs : List ℕ)
      → password_loop classes letter digit cs ≡ (
          all_of is_printable cs
          && ((letter || some_of is_alpha cs) && (digit || some_of is_plain_digit cs)))
  unfolding password_loop
  password_loop_lem letter digit [] = ground arith
  password_loop_lem letter digit (c ∷ cs) = ground (
    arith,
    password_loop_lem (if is_alpha c then true else letter)
        (if is_alpha c then digit else if is_digit c then true else digit) cs,
  )

  -- A password is accepted just if it has 4 to 128 bytes, no control character, a letter, and a digit
  -- that is no letter.
  pub is_valid_password_lem :
      (password : List ℕ)
      → is_valid_password classes password ≡ (
          leb min_password_length (length password)
          && (leb (length password) max_password_length
              && (all_of is_printable password
                  && (some_of is_alpha password && some_of is_plain_digit password))))
  unfolding is_valid_password
  is_valid_password_lem password = ground (arith, password_loop_lem false false password)
