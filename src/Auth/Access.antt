-- ===== src/Auth/Access.antt =====
-- crates/auth-sdk/src/extract.rs and guard.rs: from the Authorization header of a request to the
-- identity that a handler works with, and the middleware that holds bots to their permissions.
mod Extraction
mod Guarding
mod Examples
mod UnitTests
use oa_libs.Base.{
  ℕ, Bool, true, false, ◌||◌, not, Option, none, some, List, [], ◌∷◌, ◌++◌, if◌then◌else◌, is_empty,
  Result, ok, err, and_then, map_ok, ok_or, to_option,
}
use oa_libs.Deps.{Json}
use oa_libs.Std.Text.{Text, codes, text_eq, split, strip_prefix}
use oa_libs.Std.Utf8.{Bytes}
use oa_libs.Common.Error.{AppError, unauthorized, forbidden, Response, into_response}
use oa_libs.Auth.Claims.{Claims, has_role, is_admin, has_scope, has_resource_scope, allow_module}

abbrev pub bearer : Text
bearer = codes "Bearer "

-- What the crates see of a request: its method and the value of its Authorization header. A header
-- that is no visible ASCII has no text (`to_str` fails).
pub record Request : Type 0 where
  pub method : Text
  pub authorization : Option (Option Text)

-- `headers.get(AUTHORIZATION)` followed by `to_str().ok()`.
header_text : Option (Option Text) → Option Text
header_text none = none
header_text (some value) = value

and_strip : Option Text → Option Text
and_strip none = none
and_strip (some value) = strip_prefix bearer value

-- bearer_token of guard.rs.
pub raw_bearer_token : Request → Option Text
raw_bearer_token req = and_strip (header_text req.authorization)

-- `.filter(|t| !t.is_empty())`.
given : Option Text → Option Text
given none = none
given (some t) = if is_empty t then none else some t

-- bearer_token of extract.rs.
pub bearer_token : Request → Option Text
bearer_token req = given (raw_bearer_token req)

abbrev pub missing_token : AppError
missing_token = unauthorized (codes "AUTH_MISSING_TOKEN") (codes "缺少访问令牌")

abbrev pub no_permission : AppError
no_permission = forbidden (codes "AUTH_FORBIDDEN") (codes "权限不足")

abbrev pub no_admin : AppError
no_admin = forbidden (codes "AUTH_FORBIDDEN") (codes "需要管理员权限")

abbrev pub no_module_scope : AppError
no_module_scope = forbidden (codes "AUTH_SCOPE_DENIED") (codes "缺少模块访问权限")

abbrev pub no_resource_scope : AppError
no_resource_scope = forbidden (codes "AUTH_SCOPE_DENIED") (codes "缺少资源访问权限")

-- trait TokenVerifier, for one state of the service.
abbrev pub TokenVerifier : Type 0 → Type 0
TokenVerifier Value = Text → Result (Claims Value) AppError

module _ {Value : Type 0} where
  -- AuthUser::from_request_parts.
  pub auth_user : TokenVerifier Value → Request → Result (Claims Value) AppError
  auth_user verify req = and_then (ok_or missing_token (bearer_token req)) verify

  -- OptionalAuthUser::from_request_parts, which never rejects.
  pub optional_auth_user : TokenVerifier Value → Request → Option (Claims Value)
  optional_auth_user verify req = elim (bearer_token req) as (λ _. Option (Claims Value)) [
    | none ↦ none
    | some token ↦ to_option (verify token)
  ]

  -- AuthUser::require_role.
  pub require_role : Claims Value → Text → Result (Unit {0}) AppError
  require_role user role = if has_role user role then ok tt else err no_permission

  -- AuthUser::require_admin.
  pub require_admin : Claims Value → Result (Unit {0}) AppError
  require_admin user = if is_admin user then ok tt else err no_admin

  -- AuthUser::require_scope.
  pub require_scope : Claims Value → Text → Result (Unit {0}) AppError
  require_scope user scope = if has_scope user scope then ok tt else err no_module_scope

  -- AuthUser::require_resource_scope.
  pub require_resource_scope : Claims Value → Text → Text → Result (Unit {0}) AppError
  require_resource_scope user kind id =
      if has_resource_scope user kind id then ok tt else err no_resource_scope

-- is_write_method.
unfoldable pub is_write_method : Text → Bool
is_write_method m =
    not (text_eq m (codes "GET") || text_eq m (codes "HEAD") || text_eq m (codes "OPTIONS"))

abbrev second : List Text → Option Text
second [] = none
second (a ∷ []) = none
second (a ∷ b ∷ rest) = some b

-- The part of a token between its first two dots: `split('.').nth(1)`.
pub payload_of : Text → Option Text
payload_of token = second (split b'.' token)

-- What the guard uses of base64 (URL-safe, without padding) and of serde_json.
pub record Decoders (Value : Type 0) : Type 0 where
  pub url_decode : Text → Option Bytes
  pub claims_from_slice : Bytes → Option (Claims Value)

-- What comes back from the middleware: its own refusal, or what the rest of the service answers.
pub data Answer (Reply : Type 0) : Type 0 where
  refused : Response → Answer Reply
  passed : Reply → Answer Reply

pub module_refusal : Text → Bool → AppError
module_refusal mod_name write =
    forbidden (codes "AUTH_FORBIDDEN_MODULE")
      (codes "Bot 无权" ++ (if write then codes "写入" else codes "读取") ++ codes "模块 " ++ mod_name)

module _ (J : Json) (D : Decoders J.Value) where
  -- decode_claims_unverified.
  pub decode_claims_unverified : Text → Option (Claims J.Value)
  decode_claims_unverified token = elim (payload_of token) as (λ _. Option (Claims J.Value)) [
    | none ↦ none
    | some payload ↦ elim (D.url_decode payload) as (λ _. Option (Claims J.Value)) [
      | none ↦ none
      | some bytes ↦ D.claims_from_slice bytes
    ]
  ]

  -- The claims that the guard reads from a request.
  pub guard_claims : Request → Option (Claims J.Value)
  guard_claims req = elim (raw_bearer_token req) as (λ _. Option (Claims J.Value)) [
    | none ↦ none
    | some token ↦ decode_claims_unverified token
  ]

  -- guard_bot_request; `next` is the rest of the service.
  pub guard_bot_request : {Reply : Type 0} → Request → (Request → Reply) → Text → Answer Reply
  guard_bot_request {Reply} req next mod_name = elim (guard_claims req) as (λ _. Answer Reply) [
    | none ↦ passed (next req)
    | some claims ↦
        let write = is_write_method req.method in
        if not (allow_module J claims mod_name write)
        then refused (into_response (module_refusal mod_name write)).0
        else passed (next req)
  ]
