-- ===== src/Auth/Claims.antt =====
-- crates/auth-sdk/src/claims.rs: the payload of an access token and the questions asked of it.
pub mod Permissions
pub mod Wire
pub mod Examples
mod UnitTests
use oa_libs.Base.{
  ℕ, Bool, true, false, ◌||◌, not, Option, none, some, List, [], ◌∷◌, ◌++◌, any, if◌then◌else◌,
}
use oa_libs.Deps.{Json}
use oa_libs.Std.Text.{Text, codes, text_eq}
use oa_libs.Std.Int.{ℤ, leb_ℤ}

-- struct Claims, over the type of JSON values.
pub record Claims (Value : Type 0) : Type 0 where
  pub sub : Text
  pub name : Text
  pub avatar : Option Text
  pub roles : List Text
  pub scopes : List Text
  pub guest : Bool
  pub account_type : Option Text
  pub bot_permissions : Option Value
  pub iss : Text
  pub iat : ℤ
  pub exp : ℤ
  pub jti : Text

-- `xs.iter().any(|x| x == a)`.
abbrev pub has : Text → List Text → Bool
has a = any (λ x. text_eq x a)

module _ {Value : Type 0} (c : Claims Value) where
  -- Claims::has_role.
  unfoldable pub has_role : Text → Bool
  has_role role = has role c.roles

  -- Claims::is_admin.
  unfoldable pub is_admin : Bool
  is_admin = has_role (codes "admin") || has_role (codes "superadmin")

  -- Claims::has_scope.
  unfoldable pub has_scope : Text → Bool
  has_scope scope = has scope c.scopes

  -- Claims::has_resource_scope.
  unfoldable pub has_resource_scope : Text → Text → Bool
  has_resource_scope kind id = has (kind ++ b':' ∷ id) c.scopes

  -- Claims::is_guest.
  unfoldable pub is_guest : Bool
  is_guest = c.guest

  -- Claims::is_bot.
  unfoldable pub is_bot : Bool
  is_bot = elim c.account_type as (λ _. Bool) [
    | none ↦ false
    | some kind ↦ text_eq kind (codes "bot")
  ]

  -- Claims::is_expired.
  unfoldable pub is_expired : ℤ → Bool
  is_expired now = leb_ℤ c.exp now

module _ (J : Json) where
  open J use {Value, get, as_bool}

  -- `.and_then(…)` on a member.
  member : Text → Option Value → Option Value
  member key none = none
  member key (some v) = get v key

  -- `.and_then(Value::as_bool).unwrap_or(false)`.
  as_flag : Option Value → Bool
  as_flag none = false
  as_flag (some v) = elim (as_bool v) as (λ _. Bool) [ none ↦ false | some b ↦ b ]

  -- The permission that the matrix of a bot gives.
  pub matrix_allows : Option Value → Text → Bool → Bool
  unfolding member as_flag
  matrix_allows permissions mod_name write =
      as_flag (member (if write then codes "write" else codes "read") (member mod_name permissions))

  -- Claims::allow_module.
  unfoldable pub allow_module : Claims Value → Text → Bool → Bool
  unfolding is_bot matrix_allows
  allow_module c mod_name write =
      if not (is_bot c) then true else matrix_allows c.bot_permissions mod_name write
