-- ===== src/Auth/Tests.antt =====
-- Names and passwords in the C locale.
use ascii_poker.Prelude.{
  ℕ, ◌≡◌, refl, Bool, true, false, ◌&&◌, ◌||◌, List, [], ◌∷◌, leb, ltb, all_of, ◌==◌,
}
use ascii_poker.Auth.{CharacterClasses, trim_copy, is_valid_username, is_valid_password}
use ascii_poker.Auth.Rules.{some_of, is_printable, is_plain_digit, is_valid_password_lem}

abbrev between : ℕ → ℕ → ℕ → Bool
between low high c = leb low c && leb c high

abbrev c_locale : CharacterClasses
c_locale = record {
  is_space = λ c. c == 32 || between 9 13 c;
  is_cntrl = λ c. ltb c 32 || c == 127;
  is_alpha = λ c. between b'A' b'Z' c || between b'a' b'z' c;
  is_digit = λ c. between b'0' b'9' c;
}

abbrev secret : List ℕ
secret = b'a' ∷ b'b' ∷ b'c' ∷ b'1' ∷ []

secret_accepted : is_valid_password c_locale secret ≡ true
unfolding is_valid_password
secret_accepted = refl

is_valid_password_lem_example : is_valid_password c_locale secret ≡ (
    leb 4 4
    && (leb 4 128
        && (all_of (is_printable c_locale) secret
            && (some_of (λ c. between b'A' b'Z' c || between b'a' b'z' c) secret
                && some_of (is_plain_digit c_locale) secret))))
is_valid_password_lem_example = is_valid_password_lem c_locale secret

-- Spaces are taken off both ends, and kept between.
trimmed : trim_copy c_locale (32 ∷ b'a' ∷ 32 ∷ b'b' ∷ 9 ∷ []) ≡ b'a' ∷ 32 ∷ b'b' ∷ []
unfolding trim_copy
trimmed = refl

blank_refused : is_valid_username c_locale (trim_copy c_locale (32 ∷ 32 ∷ [])) ≡ false
unfolding is_valid_username trim_copy
blank_refused = refl
