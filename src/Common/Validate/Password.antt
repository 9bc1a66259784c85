-- ===== src/Common/Validate/Password.antt =====
-- What a password must have, and which error names what it lacks.
use oa_libs.Base.{ℕ, ◌≤◌, ◌<◌, ◌≡◌, ◌↔◌, ◌⊎◌, [], ◌∷◌, true, any, Any, length, ok, err, arith}
use oa_libs.Std.Text.{Text}
use oa_libs.Common.Validate.{
  password_min_len, password_max_len, too_short, too_long, missing_letter, missing_digit,
  validate_password,
}
use oa_libs.Std.Chars.{is_ascii_alphabetic, is_ascii_digit}

abbrev pub IsLetter : ℕ → Type 0
IsLetter c = ((b'a' ≤ c) × (c ≤ b'z')) ⊎ ((b'A' ≤ c) × (c ≤ b'Z'))

abbrev pub IsDigit : ℕ → Type 0
IsDigit c = (b'0' ≤ c) × (c ≤ b'9')

abbrev pub HasLength : Text → Type 0
HasLength s = (password_min_len ≤ length s) × (length s ≤ password_max_len)

letter_lem : (s : Text) → (any is_ascii_alphabetic s ≡ true) ↔ Any IsLetter s
unfolding is_ascii_alphabetic
letter_lem [] = ground arith
letter_lem (c ∷ s) = ground (arith, letter_lem s)

digit_lem : (s : Text) → (any is_ascii_digit s ≡ true) ↔ Any IsDigit s
unfolding is_ascii_digit
digit_lem [] = ground arith
digit_lem (c ∷ s) = ground (arith, digit_lem s)

-- Each answer of `validate_password` is given exactly on the passwords that it describes: too short,
-- too long, of a right length without an ASCII letter, with a letter but no ASCII digit, and
-- accepted with the right length, a letter and a digit.
pub validate_password_iff :
    (s : Text)
    → ((validate_password s ≡ err too_short) ↔ (length s < password_min_len))
      × ((validate_password s ≡ err too_long) ↔ (password_max_len < length s))
      × ((validate_password s ≡ err missing_letter) ↔ (HasLength s × (¬ Any IsLetter s)))
      × ((validate_password s ≡ err missing_digit)
          ↔ (HasLength s × Any IsLetter s × (¬ Any IsDigit s)))
      × ((validate_password s ≡ ok tt) ↔ (HasLength s × Any IsLetter s × Any IsDigit s))
unfolding validate_password
validate_password_iff s = ground (arith, letter_lem s, digit_lem s)
