-- ===== src/Common/Validate.antt =====
-- crates/common/src/validate.rs: e-mail addresses, passwords and user names.
mod Password
mod Username
mod Labels
mod Parts
mod Email
mod Domain
mod Examples
mod UnitTests
use oa_libs.Base.{
  ℕ, Bool, true, false, ◌&&◌, ◌||◌, not, Option, none, some, List, [], ◌∷◌, ltb, leb, ◌==◌,
  if◌then◌else◌, is_empty, all, any, length, Result, ok, err,
}
use oa_libs.Std.Chars.{
  is_ascii_digit, is_ascii_lowercase, is_ascii_alphabetic, is_ascii_alphanumeric, is_whitespace,
}
use oa_libs.Std.Text.{
  Text, codes, len, trim, trim_start_matches, starts_with, ends_with, split, split_once,
  eq_ignore_ascii_case,
}

abbrev pub email_max_len : ℕ
email_max_len = 254

abbrev pub local_max_len : ℕ
local_max_len = 64

abbrev pub password_min_len : ℕ
password_min_len = 8

abbrev pub password_max_len : ℕ
password_max_len = 128

abbrev pub username_min_len : ℕ
username_min_len = 3

abbrev pub username_max_len : ℕ
username_max_len = 32

-- The test on one label of the domain.
pub is_label : Text → Bool
unfolding is_ascii_alphanumeric
is_label label = not (is_empty label) && all (λ c. is_ascii_alphanumeric c || c == b'-') label

-- `domain.contains('.')`.
pub contains_char : ℕ → Text → Bool
contains_char c = any (λ d. d == c)

-- The guards on the two parts of the address, and the test on the labels.
pub are_valid_parts : Text → Text → Bool
are_valid_parts local domain =
    if is_empty local || ltb local_max_len (len local) || is_empty domain
    then false
    else if not (contains_char b'.' domain) || starts_with b'.' domain || ends_with b'.' domain
    then false
    else all is_label (split b'.' domain)

-- The pattern `(Some(local), Some(domain), None)` over the parts at `@`.
pub check_parts : List Text → Bool
check_parts (local ∷ domain ∷ []) = are_valid_parts local domain
check_parts _ = false

-- The guards on the trimmed text, and the test on its parts.
pub is_valid_trimmed : Text → Bool
is_valid_trimmed email =
    if is_empty email || ltb email_max_len (len email) || any is_whitespace email
    then false
    else check_parts (split b'@' email)

-- is_valid_email.
pub is_valid_email : Text → Bool
is_valid_email email = is_valid_trimmed (trim email)

-- The closure over one allowed domain.
pub is_allowed_by : Text → Text → Bool
is_allowed_by domain allowed = eq_ignore_ascii_case (trim_start_matches b'@' (trim allowed)) domain

-- The `let … else` on the split address, and the search through the list.
pub is_listed : List Text → Option (Text × Text) → Bool
is_listed allowed none = false
is_listed allowed (some (local, domain)) = any (is_allowed_by domain) allowed

-- `str::to_lowercase` follows Unicode's tables, which are not part of the crates.
module _ (to_lowercase : Text → Text) where
  -- normalize_email.
  pub normalize_email : Text → Text
  normalize_email email = to_lowercase (trim email)

  -- email_domain_allowed.
  pub email_domain_allowed : Text → List Text → Bool
  email_domain_allowed email allowed_domains =
      if is_empty allowed_domains
      then true
      else is_listed allowed_domains (split_once b'@' (to_lowercase (trim email)))

-- The error keys of `validate_password`.
abbrev pub too_short : Text
too_short = codes "password.too_short"

abbrev pub too_long : Text
too_long = codes "password.too_long"

abbrev pub missing_letter : Text
missing_letter = codes "password.missing_letter"

abbrev pub missing_digit : Text
missing_digit = codes "password.missing_digit"

-- validate_password. `chars().count()` is the number of code points.
pub validate_password : Text → Result (Unit {0}) Text
unfolding is_ascii_alphabetic is_ascii_digit
validate_password password =
    if ltb (length password) password_min_len
    then err too_short
    else if ltb password_max_len (length password)
    then err too_long
    else if not (any is_ascii_alphabetic password)
    then err missing_letter
    else if not (any is_ascii_digit password)
    then err missing_digit
    else ok tt

pub is_username_char : ℕ → Bool
unfolding is_ascii_lowercase is_ascii_digit
is_username_char c = is_ascii_lowercase c || is_ascii_digit c || c == b'.' || c == b'_' || c == b'-'

-- The guard on the first character.
pub starts_alphanumeric : Text → Bool
unfolding is_ascii_alphanumeric
starts_alphanumeric [] = false
starts_alphanumeric (first ∷ rest) = is_ascii_alphanumeric first

-- is_valid_username.
pub is_valid_username : Text → Bool
unfolding is_username_char starts_alphanumeric
is_valid_username username =
    if not (leb username_min_len (length username) && leb (length username) username_max_len)
    then false
    else if not (starts_alphanumeric username)
    then false
    else all is_username_char username
