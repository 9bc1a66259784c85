-- ===== src/Common/Validate/Examples.antt =====
-- The theorems on user input at concrete texts.
use oa_libs.Base.{List, ◌≡◌, ◌↔◌, ◌⊎◌, ◌≤◌, ◌<◌, true, Any, All, length, ok, err, [], ◌∷◌}
use oa_libs.Std.Text.{Text, codes, trim}
use oa_libs.Common.Validate.{
  is_valid_email, is_valid_username, validate_password, email_domain_allowed, normalize_email,
  password_min_len, password_max_len, username_min_len, username_max_len, too_short, too_long,
  missing_letter, missing_digit,
}
use oa_libs.Common.Validate.Email.{IsEmail, is_valid_email_iff}
use oa_libs.Common.Validate.Username.{IsUsernameChar, HeadIs, IsLowerAlnum, is_valid_username_iff}
use oa_libs.Common.Validate.Password.{HasLength, IsLetter, IsDigit, validate_password_iff}
use oa_libs.Common.Validate.Domain.{HasDomain, Names, email_domain_allowed_iff}

abbrev address : Text
address = codes " ada@club.edu.cn "

abbrev member : Text
member = codes "ada.l-2"

abbrev secret : Text
secret = codes "longer7than"

abbrev allowed : List Text
allowed = codes "@Club.edu.cn" ∷ []

is_valid_email_iff_example : (is_valid_email address ≡ true) ↔ IsEmail (trim address)
is_valid_email_iff_example = is_valid_email_iff address

is_valid_username_iff_example : (is_valid_username member ≡ true) ↔ (
    (username_min_len ≤ length member)
    × (length member ≤ username_max_len)
    × HeadIs IsLowerAlnum member
    × All IsUsernameChar member)
is_valid_username_iff_example = is_valid_username_iff member

validate_password_iff_example :
    ((validate_password secret ≡ err too_short) ↔ (length secret < password_min_len))
    × ((validate_password secret ≡ err too_long) ↔ (password_max_len < length secret))
    × ((validate_password secret ≡ err missing_letter)
        ↔ (HasLength secret × (¬ Any IsLetter secret)))
    × ((validate_password secret ≡ err missing_digit)
        ↔ (HasLength secret × Any IsLetter secret × (¬ Any IsDigit secret)))
    × ((validate_password secret ≡ ok tt)
        ↔ (HasLength secret × Any IsLetter secret × Any IsDigit secret))
validate_password_iff_example = validate_password_iff secret

email_domain_allowed_iff_example : (email_domain_allowed (λ s. s) address allowed ≡ true) ↔ (
    (allowed ≡ [])
    ⊎ ((domain : Text) × HasDomain (normalize_email (λ s. s) address) domain
        × Any (Names domain) allowed))
email_domain_allowed_iff_example = email_domain_allowed_iff (λ s. s) address allowed
