-- ===== src/Auth/Claims/Examples.antt =====
-- The theorems on claims at concrete claims.
use oa_libs.Base.{List, Any, ◌≡◌, ◌↔◌, ◌⊎◌, refl, true, false, none, some, [], ◌∷◌, arith}
use oa_libs.Deps.Samples.{Tree, flag, member_of, empty_object, trees, tree_serde, tree_null}
use oa_libs.Std.Int.{pos}
use oa_libs.Std.Text.{Text, codes}
use oa_libs.Auth.Claims.{Claims, is_bot, has_resource_scope, allow_module}
use oa_libs.Auth.Claims.Wire.{
  HasNoNull, claims_from_value, claims_to_value, claims_from_value-claims_to_value,
}
use oa_libs.Auth.Claims.Permissions.{Grants, has_resource_scope_exact, allow_module_iff}

-- A bot that may write events and read nothing.
abbrev pub matrix : Tree
matrix = member_of (codes "event") (member_of (codes "write") (flag true) empty_object) empty_object

abbrev pub bot : Claims Tree
bot = record {
  sub = codes "17";
  name = codes "bot";
  avatar = none;
  roles = codes "admin" ∷ [];
  scopes = codes "doc:42" ∷ [];
  guest = false;
  account_type = some (codes "bot");
  bot_permissions = some matrix;
  iss = codes "club";
  iat = pos 1000;
  exp = pos 2000;
  jti = codes "j";
}

bot_writes :
    (allow_module trees bot (codes "event") true ≡ true)
    × (allow_module trees bot (codes "event") false ≡ false)
unfolding allow_module oa_libs.Std.Text.text_eq oa_libs.Deps.Samples.tree_get
    oa_libs.Deps.Samples.tree_bool
bot_writes = (refl, refl)

abbrev resources : List (Text × Text)
resources = (codes "doc", codes "42") ∷ []

has_resource_scope_exact_example :
    (has_resource_scope bot (codes "doc") (codes "43") ≡ true)
    ↔ Any (λ r. (r.0 ≡ codes "doc") × (r.1 ≡ codes "43")) resources
has_resource_scope_exact_example =
    has_resource_scope_exact bot resources (codes "doc") (codes "43") refl (omega arith, tt)
      (omega arith)

allow_module_iff_example :
    (allow_module trees bot (codes "event") true ≡ true)
    ↔ ((is_bot bot ≡ false) ⊎ Grants trees bot.bot_permissions (codes "event") true)
allow_module_iff_example = allow_module_iff trees bot (codes "event") true

pub bot-HasNoNull : HasNoNull tree_serde (some matrix)
unfolding tree_null
bot-HasNoNull = refl

claims_from_value-claims_to_value_example :
    claims_from_value tree_serde (claims_to_value tree_serde bot) ≡ some bot
claims_from_value-claims_to_value_example =
    claims_from_value-claims_to_value tree_serde bot bot-HasNoNull
