-- ===== src/Common/Validate/Username.antt =====
-- Which user names are accepted.
use oa_libs.Base.{ℕ, ◌≤◌, ◌≡◌, ◌↔◌, ◌⊎◌, [], ◌∷◌, true, All, all, length, arith}
use oa_libs.Std.Text.{Text}
use oa_libs.Common.Validate.{
  username_min_len, username_max_len, is_username_char, is_valid_username,
}

-- A lower-case ASCII letter or an ASCII digit.
abbrev pub IsLowerAlnum : ℕ → Type 0
IsLowerAlnum c = ((b'a' ≤ c) × (c ≤ b'z')) ⊎ ((b'0' ≤ c) × (c ≤ b'9'))

abbrev pub IsUsernameChar : ℕ → Type 0
IsUsernameChar c = IsLowerAlnum c ⊎ ((c ≡ b'.') ⊎ (c ≡ b'_') ⊎ (c ≡ b'-'))

abbrev pub HeadIs : (ℕ → Type 0) → Text → Type 0
HeadIs P [] = ⊥
HeadIs P (c ∷ s) = P c

chars_lem : (s : Text) → (all is_username_char s ≡ true) ↔ All IsUsernameChar s
unfolding is_username_char
chars_lem [] = ground arith
chars_lem (c ∷ s) = ground (arith, chars_lem s)

-- A user name is accepted exactly if it has 3 to 32 characters, each a lower-case ASCII letter, a
-- digit or one of `.`, `_` and `-`, and begins with a letter or digit: although the first test lets
-- an upper-case initial pass, no accepted name has one.
pub is_valid_username_iff :
    (s : Text)
    → (is_valid_username s ≡ true) ↔ (
        (username_min_len ≤ length s)
        × (length s ≤ username_max_len)
        × HeadIs IsLowerAlnum s
        × All IsUsernameChar s)
unfolding is_valid_username is_username_char
is_valid_username_iff [] = ground arith
is_valid_username_iff (c ∷ s) = ground (arith, chars_lem s)
