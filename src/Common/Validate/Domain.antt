-- ===== src/Common/Validate/Domain.antt =====
-- The list of allowed e-mail domains.
use oa_libs.Base.{
  ◌≡◌, ◌↔◌, ◌⊎◌, refl, List, [], ◌∷◌, ◌++◌, Option, none, some, inl, inr, true, any, Any, map,
  arith,
}
use oa_libs.Std.Chars.{to_ascii_lowercase}
use oa_libs.Std.Text.{Text, trim, trim_start_matches, split_once, eq_ignore_ascii_case, Lacks}
use oa_libs.Std.Text.Laws.{text_eq_iff}
use oa_libs.Std.Text.Split.{split_once_sound, split_once-append_sep}
use oa_libs.Common.Validate.{is_allowed_by, is_listed, normalize_email, email_domain_allowed}

-- The entry, without the whitespace around it and without leading `@`s, is the domain up to ASCII case.
abbrev pub Names : Text → Text → Type 0
Names domain allowed =
    map to_ascii_lowercase (trim_start_matches b'@' (trim allowed)) ≡ map to_ascii_lowercase domain

is_allowed_by_iff :
    (domain allowed : Text) → (is_allowed_by domain allowed ≡ true) ↔ Names domain allowed
unfolding is_allowed_by eq_ignore_ascii_case
is_allowed_by_iff domain allowed = text_eq_iff _ _

any_allowed_iff :
    (domain : Text) (allowed : List Text)
    → (any (is_allowed_by domain) allowed ≡ true) ↔ Any (Names domain) allowed
any_allowed_iff domain [] = ground arith
any_allowed_iff domain (a ∷ more) =
    ground (arith, is_allowed_by_iff domain a, any_allowed_iff domain more)

-- The domain of a normalised address is what stands behind its first `@`.
abbrev pub HasDomain : Text → Text → Type 0
HasDomain address domain = (local : Text) × (address ≡ local ++ b'@' ∷ domain) × Lacks b'@' local

is_listed_sound :
    (allowed : List Text) (address : Text) (o : Option (Text × Text))
    → split_once b'@' address ≡ o
    → is_listed allowed o ≡ true
    → (domain : Text) × HasDomain address domain × Any (Names domain) allowed
unfolding is_listed
is_listed_sound allowed address none e h = absurd (cc)
is_listed_sound allowed address (some (local, domain)) e h =
    let (form, single) = split_once_sound b'@' address local domain e in
    (domain, (local, form, single), (any_allowed_iff domain allowed).0 h)

is_listed_complete :
    (allowed : List Text) (address domain : Text)
    → HasDomain address domain
    → Any (Names domain) allowed
    → is_listed allowed (split_once b'@' address) ≡ true
unfolding is_listed
is_listed_complete allowed address domain (local, form, single) h =
    rw (form, split_once-append_sep b'@' local domain single) ((any_allowed_iff domain allowed).1 h)

module _ (to_lowercase : Text → Text) where
  -- Whatever the lower-case tables do, an address passes exactly if the list is empty or the
  -- normalised address has a domain that an entry of the list names.
  pub email_domain_allowed_iff :
      (email : Text) (allowed : List Text)
      → (email_domain_allowed to_lowercase email allowed ≡ true) ↔ (
          (allowed ≡ [])
          ⊎ ((domain : Text) × HasDomain (normalize_email to_lowercase email) domain
              × Any (Names domain) allowed))
  unfolding email_domain_allowed normalize_email
  email_domain_allowed_iff email [] = ground arith
  email_domain_allowed_iff email (a ∷ more) =
      let address = to_lowercase (trim email) in
      (
        λ h. inr (is_listed_sound (a ∷ more) address (split_once b'@' address) refl h),
        from_cases address,
      )
    where
      from_cases :
          (address : Text)
          → ((a ∷ more ≡ [])
              ⊎ ((domain : Text) × HasDomain address domain × Any (Names domain) (a ∷ more)))
          → is_listed (a ∷ more) (split_once b'@' address) ≡ true
      from_cases address (inl e) = absurd (cc)
      from_cases address (inr (domain, d, h)) = is_listed_complete (a ∷ more) address domain d h
