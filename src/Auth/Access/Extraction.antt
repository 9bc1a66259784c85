-- ===== src/Auth/Access/Extraction.antt =====
-- What the extractors accept, and what the `require_*` checks answer.
use oa_libs.Base.{
  ◌∷◌, ◌≡◌, ◌≢◌, ◌↔◌, ◌⊎◌, inl, inr, refl, Bool, true, false, Option, none, some, Option-cases, [],
  ◌++◌, is_empty_iff, Result, ok, err, to_option, arith, if◌then◌else◌,
}
use oa_libs.Auth.Access.{
  no_permission, no_admin, no_module_scope, no_resource_scope, Request, bearer, header_text,
  and_strip, raw_bearer_token, given, bearer_token, TokenVerifier, auth_user, optional_auth_user,
  missing_token, require_role, require_admin, require_scope, require_resource_scope,
}
use oa_libs.Std.Text.{Text, codes}
use oa_libs.Std.Text.Laws.{strip_prefix_iff}
use oa_libs.Common.Error.{AppError, status, error_code}
use oa_libs.Auth.Claims.{Claims, has_role, has_scope, has_resource_scope}
use oa_libs.Auth.Claims.Permissions.{Has, has_iff, is_admin_iff}

-- The Authorization header is `Bearer `, followed by the token.
abbrev pub Carries : Request → Text → Type 0
Carries req t = req.authorization ≡ some (some (bearer ++ t))

header_lem :
    (h : Option (Option Text)) (t : Text)
    → (and_strip (header_text h) ≡ some t) ↔ (h ≡ some (some (bearer ++ t)))
unfolding and_strip header_text
header_lem none t = ground arith
header_lem (some none) t = ground arith
header_lem (some (some value)) t = ground (arith, strip_prefix_iff bearer value t)

pub raw_bearer_token_iff :
    (req : Request) (t : Text) → (raw_bearer_token req ≡ some t) ↔ Carries req t
unfolding raw_bearer_token
raw_bearer_token_iff req t = header_lem req.authorization t

given_iff : (o : Option Text) (t : Text) → (given o ≡ some t) ↔ ((o ≡ some t) × (t ≢ []))
unfolding given
given_iff none t = ground arith
given_iff (some s) t = ground (arith, is_empty_iff s)

-- A request has a bearer token exactly if its header is `Bearer ` followed by that token, and the
-- token is not empty.
pub bearer_token_iff :
    (req : Request) (t : Text) → (bearer_token req ≡ some t) ↔ (Carries req t × (t ≢ []))
unfolding bearer_token
bearer_token_iff req t =
    ground (arith, given_iff (raw_bearer_token req) t, raw_bearer_token_iff req t)

module _ {Value : Type 0} (verify : TokenVerifier Value) (req : Request) where
  -- A request without a token that is not empty is answered 401 by the required extractor; of any
  -- other request both extractors give what the verifier says of the token, which the optional one
  -- turns into nothing where it is an error, as it does with the 401.
  pub auth_user_exact :
      (((bearer_token req ≡ none)
          × ((t : Text) → ¬ (Carries req t × (t ≢ [])))
          × (e : AppError) × (auth_user verify req ≡ err e)
          × (status e ≡ 401)
          × (error_code e ≡ codes "AUTH_MISSING_TOKEN"))
        ⊎ ((t : Text) × Carries req t × (t ≢ []) × (auth_user verify req ≡ verify t)))
      × (optional_auth_user verify req ≡ to_option (auth_user verify req))
  unfolding auth_user optional_auth_user status error_code
  auth_user_exact = elim (Option-cases (bearer_token req)) [
    | inl missing ↦ (
      inl (
        missing,
        (λ t carried. absurd (ground (arith, bearer_token_iff req t))),
        missing_token,
        ground arith,
        refl,
        refl,
      ),
      ground arith,
    )
    | inr (t, carried) ↦
        let (header, nonempty) = (bearer_token_iff req t).0 carried in
        (inr (t, header, nonempty, ground arith), ground arith)
  ]

  -- The required extractor yields claims exactly for a token that the verifier accepts with them.
  pub auth_user_iff :
      (c : Claims Value)
      → (auth_user verify req ≡ ok c) ↔ ((t : Text) × Carries req t × (t ≢ []) × (verify t ≡ ok c))
  unfolding auth_user
  auth_user_iff c = elim (Option-cases (bearer_token req)) [
    | inl missing ↦
        (λ h. absurd (ground arith), λ found. absurd (ground (arith, bearer_token_iff req found.0)))
    | inr (t, carried) ↦ (
      λ h.
          let (header, nonempty) = (bearer_token_iff req t).0 carried in
          (t, header, nonempty, ground arith),
      λ found. ground (arith, bearer_token_iff req found.0),
    )
  ]

-- The check succeeded, and what it asks for is there, or it answered 403, and it is not.
abbrev pub Gate : Type 0 → Result (Unit {0}) AppError → Type 0
Gate Held r = (Held × (r ≡ ok tt)) ⊎ ((¬ Held) × (e : AppError) × (r ≡ err e) × (status e ≡ 403))

Gate-of_if :
    {Held : Type 0} (held : Bool) (e : AppError)
    → (held ≡ true) ↔ Held
    → status e ≡ 403
    → Gate Held (if held then ok tt else err e)
Gate-of_if true e holds h = inl (holds.0 refl, refl)
Gate-of_if false e holds h = inr ((λ x. absurd (ground (arith, holds.1 x))), e, refl, h)

-- Each check of a handler succeeds exactly if the lists of the claims have what it asks for: the role,
-- one of the two roles of an administrator, the scope, or the scope that is spelled by the kind of the
-- resource, a colon and its identifier. Otherwise it answers 403.
require_gates :
    {Value : Type 0} (user : Claims Value) (role scope kind id : Text)
    → Gate (Has role user.roles) (require_role user role)
      × Gate
          (Has (codes "admin") user.roles ⊎ Has (codes "superadmin") user.roles)
          (require_admin user)
      × Gate (Has scope user.scopes) (require_scope user scope)
      × Gate (Has (kind ++ b':' ∷ id) user.scopes) (require_resource_scope user kind id)
unfolding require_role require_admin require_scope require_resource_scope has_role has_scope
    has_resource_scope status
require_gates user role scope kind id = (
  Gate-of_if _ no_permission (has_iff role user.roles) refl,
  Gate-of_if _ no_admin (is_admin_iff user) refl,
  Gate-of_if _ no_module_scope (has_iff scope user.scopes) refl,
  Gate-of_if _ no_resource_scope (has_iff (kind ++ b':' ∷ id) user.scopes) refl,
)
