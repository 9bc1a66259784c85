-- ===== src/Common/Validate/UnitTests.antt =====
-- The unit tests of crates/common/src/validate.rs, on the model.
use oa_libs.Base.{ℕ, zero, suc, ◌≡◌, refl, true, false, List, [], ◌∷◌, ◌++◌, map, err, is_ok}
use oa_libs.Std.Text.{Text, codes}
use oa_libs.Std.Chars.{to_ascii_lowercase}
use oa_libs.Common.Validate.{
  is_valid_email, normalize_email, email_domain_allowed, validate_password, is_valid_username,
}

-- `str::to_lowercase` on the ASCII texts of the tests.
abbrev lowered : Text → Text
lowered = map to_ascii_lowercase

abbrev repeat : ℕ → Text → Text
repeat zero s = []
repeat (suc n) s = s ++ repeat n s

abbrev allowed : List Text
allowed = codes "club.example.com" ∷ codes "@school.edu.cn" ∷ []

-- accepts_common_emails.
AcceptsCommonEmails : Type 0
AcceptsCommonEmails =
    (is_valid_email (codes "a@b.cn") ≡ true)
    × (is_valid_email (codes "zhang.san@club.example.com") ≡ true)
    × (is_valid_email (codes "user+tag@sub.domain.org") ≡ true)

AcceptsCommonEmails_holds : AcceptsCommonEmails
unfolding AcceptsCommonEmails is_valid_email oa_libs.Common.Validate.is_valid_trimmed
    oa_libs.Std.Text.trim oa_libs.Std.Text.len oa_libs.Common.Validate.check_parts
    oa_libs.Std.Text.split oa_libs.Common.Validate.are_valid_parts
    oa_libs.Common.Validate.contains_char oa_libs.Std.Text.ends_with
    oa_libs.Common.Validate.is_label
AcceptsCommonEmails_holds = (refl, refl, refl)

-- rejects_invalid_emails.
RejectsInvalidEmails : Type 0
RejectsInvalidEmails =
    (is_valid_email (codes "") ≡ false)
    × (is_valid_email (codes "plain") ≡ false)
    × (is_valid_email (codes "a@b") ≡ false)
    × (is_valid_email (codes "@domain.com") ≡ false)
    × (is_valid_email (codes "a@.com") ≡ false)
    × (is_valid_email (codes "a@com.") ≡ false)
    × (is_valid_email (codes "a@@b.com") ≡ false)
    × (is_valid_email (codes "a b@c.com") ≡ false)
    × (is_valid_email (codes "a@b c.com") ≡ false)

RejectsInvalidEmails_holds : RejectsInvalidEmails
unfolding RejectsInvalidEmails is_valid_email oa_libs.Common.Validate.is_valid_trimmed
    oa_libs.Std.Text.trim oa_libs.Std.Text.len oa_libs.Common.Validate.check_parts
    oa_libs.Std.Text.split oa_libs.Common.Validate.are_valid_parts
    oa_libs.Common.Validate.contains_char oa_libs.Std.Text.ends_with
RejectsInvalidEmails_holds = (refl, refl, refl, refl, refl, refl, refl, refl, refl)

-- normalizes_email.
NormalizesEmail : Type 0
NormalizesEmail =
    (normalize_email lowered (codes "  Alice@Example.COM ") ≡ codes "alice@example.com")

NormalizesEmail_holds : NormalizesEmail
unfolding NormalizesEmail normalize_email oa_libs.Std.Text.trim to_ascii_lowercase
NormalizesEmail_holds = refl

-- domain_whitelist.
DomainWhitelist : Type 0
DomainWhitelist =
    (email_domain_allowed lowered (codes "a@club.example.com") allowed ≡ true)
    × (email_domain_allowed lowered (codes "A@School.edu.cn") allowed ≡ true)
    × (email_domain_allowed lowered (codes "a@evil.com") allowed ≡ false)
    × (email_domain_allowed lowered (codes "a@evil.com") [] ≡ true)

DomainWhitelist_holds : DomainWhitelist
unfolding DomainWhitelist email_domain_allowed oa_libs.Common.Validate.is_listed
    oa_libs.Std.Text.split_once oa_libs.Std.Text.trim to_ascii_lowercase
    oa_libs.Common.Validate.is_allowed_by oa_libs.Std.Text.eq_ignore_ascii_case
    oa_libs.Std.Text.trim_start_matches
DomainWhitelist_holds = (refl, refl, refl, refl)

-- password_policy.
PasswordPolicy : Type 0
PasswordPolicy =
    (is_ok (validate_password (codes "abcd1234")) ≡ true)
    × (validate_password (codes "short1") ≡ err (codes "password.too_short"))
    × (validate_password (codes "abcdefgh") ≡ err (codes "password.missing_digit"))
    × (validate_password (codes "12345678") ≡ err (codes "password.missing_letter"))
    × (validate_password (repeat 100 (codes "a1")) ≡ err (codes "password.too_long"))

PasswordPolicy_holds : PasswordPolicy
unfolding PasswordPolicy validate_password
PasswordPolicy_holds = (refl, refl, refl, refl, refl)

-- username_policy.
UsernamePolicy : Type 0
UsernamePolicy =
    (is_valid_username (codes "alice") ≡ true)
    × (is_valid_username (codes "a.b_c-d1") ≡ true)
    × (is_valid_username (codes "abc") ≡ true)
    × (is_valid_username (codes "ab") ≡ false)
    × (is_valid_username (codes ".alice") ≡ false)
    × (is_valid_username (codes "Alice") ≡ false)
    × (is_valid_username (codes "alice!") ≡ false)
    × (is_valid_username (repeat 33 (codes "a")) ≡ false)

UsernamePolicy_holds : UsernamePolicy
unfolding UsernamePolicy is_valid_username
UsernamePolicy_holds = (refl, refl, refl, refl, refl, refl, refl, refl)
