-- ===== src/Auth/Access/UnitTests.antt =====
-- The unit tests of crates/auth-sdk/src/extract.rs, on the model.
use oa_libs.Base.{
  ◌≡◌, ◌^◌, ◌-◌, refl, true, false, Option, none, some, [], ◌∷◌, Result, ok, err, is_ok, is_err,
  is_none, if◌then◌else◌,
}
use oa_libs.Deps.Samples.{Tree}
use oa_libs.Std.Int.{pos}
use oa_libs.Std.Text.{Text, codes, text_eq}
use oa_libs.Common.Error.{AppError, unauthorized, error_code}
use oa_libs.Auth.Claims.{Claims}
use oa_libs.Auth.Access.{
  Request, TokenVerifier, auth_user, optional_auth_user, require_role, require_admin, require_scope,
}

abbrev caller : Claims Tree
caller = record {
  sub = codes "u1";
  name = codes "张三";
  avatar = none;
  roles = codes "member" ∷ [];
  scopes = codes "im" ∷ [];
  guest = false;
  account_type = none;
  bot_permissions = none;
  iss = codes "https://oa.test";
  iat = pos 0;
  exp = pos (2 ^ 63 - 1);
  jti = codes "j";
}

-- FakeVerifier::verify_token.
abbrev fake_verifier : TokenVerifier Tree
fake_verifier token =
    if text_eq token (codes "valid")
    then ok caller
    else err (unauthorized (codes "AUTH_INVALID_TOKEN") (codes "令牌无效"))

abbrev visible : Option Text → Option (Option Text)
visible none = none
visible (some value) = some (some value)

-- parts_with_auth.
abbrev parts_with_auth : Option Text → Request
parts_with_auth value = record { method = codes "GET"; authorization = visible value }

abbrev answer : Option Text → Result (Claims Tree) AppError
answer value = auth_user fake_verifier (parts_with_auth value)

abbrev optional_answer : Option Text → Option (Claims Tree)
optional_answer value = optional_auth_user fake_verifier (parts_with_auth value)

abbrev code_of : {A : Type 0} → Result A AppError → Option Text
code_of (ok a) = none
code_of (err e) = some (error_code e)

abbrev sub_of : Option (Claims Tree) → Option Text
sub_of none = none
sub_of (some c) = some c.sub

-- auth_user_accepts_valid_bearer.
AuthUserAcceptsValidBearer : Type 0
AuthUserAcceptsValidBearer =
    (answer (some (codes "Bearer valid")) ≡ ok caller)
    × (caller.sub ≡ codes "u1")
    × (is_ok (require_scope caller (codes "im")) ≡ true)
    × (is_err (require_scope caller (codes "task")) ≡ true)
    × (is_ok (require_role caller (codes "member")) ≡ true)
    × (is_err (require_admin caller) ≡ true)

AuthUserAcceptsValidBearer_holds : AuthUserAcceptsValidBearer
unfolding AuthUserAcceptsValidBearer auth_user oa_libs.Auth.Access.bearer_token
    oa_libs.Auth.Access.given oa_libs.Auth.Access.raw_bearer_token oa_libs.Auth.Access.and_strip
    oa_libs.Auth.Access.header_text oa_libs.Std.Text.strip_prefix text_eq require_scope
    oa_libs.Auth.Claims.has_scope require_role oa_libs.Auth.Claims.has_role require_admin
    oa_libs.Auth.Claims.is_admin
AuthUserAcceptsValidBearer_holds = (refl, refl, refl, refl, refl, refl)

-- auth_user_rejects_missing_or_invalid.
AuthUserRejectsMissingOrInvalid : Type 0
AuthUserRejectsMissingOrInvalid =
    (code_of (answer none) ≡ some (codes "AUTH_MISSING_TOKEN"))
    × (is_err (answer (some (codes "Token abc"))) ≡ true)
    × (is_err (answer (some (codes "Bearer nope"))) ≡ true)

AuthUserRejectsMissingOrInvalid_holds : AuthUserRejectsMissingOrInvalid
unfolding AuthUserRejectsMissingOrInvalid auth_user oa_libs.Auth.Access.bearer_token
    oa_libs.Auth.Access.given oa_libs.Auth.Access.raw_bearer_token oa_libs.Auth.Access.and_strip
    oa_libs.Auth.Access.header_text error_code oa_libs.Std.Text.strip_prefix text_eq
AuthUserRejectsMissingOrInvalid_holds = (refl, refl, refl)

-- optional_auth_user_never_rejects.
OptionalAuthUserNeverRejects : Type 0
OptionalAuthUserNeverRejects =
    (is_none (optional_answer none) ≡ true)
    × (is_none (optional_answer (some (codes "Bearer nope"))) ≡ true)
    × (sub_of (optional_answer (some (codes "Bearer valid"))) ≡ some (codes "u1"))

OptionalAuthUserNeverRejects_holds : OptionalAuthUserNeverRejects
unfolding OptionalAuthUserNeverRejects optional_auth_user oa_libs.Auth.Access.bearer_token
    oa_libs.Auth.Access.given oa_libs.Auth.Access.raw_bearer_token oa_libs.Auth.Access.and_strip
    oa_libs.Auth.Access.header_text oa_libs.Std.Text.strip_prefix text_eq
OptionalAuthUserNeverRejects_holds = (refl, refl, refl)
