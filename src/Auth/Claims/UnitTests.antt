-- ===== src/Auth/Claims/UnitTests.antt =====
-- The unit tests of crates/auth-sdk/src/claims.rs, on the model.
use oa_libs.Base.{◌≡◌, refl, Bool, true, false, none, some, [], ◌∷◌, ◌++◌}
use oa_libs.Deps.Samples.{Tree, trees, tree_serde}
use oa_libs.Std.Int.{pos}
use oa_libs.Std.Text.{Text, codes}
use oa_libs.Auth.Claims.{
  Claims, has_role, is_admin, has_scope, has_resource_scope, is_guest, is_bot, allow_module,
  is_expired,
}
use oa_libs.Auth.Claims.Wire.{claims_to_value, claims_from_value}

-- member.
abbrev pub member_claims : Claims Tree
member_claims = record {
  sub = codes "u1";
  name = codes "张三";
  avatar = none;
  roles = codes "member" ∷ [];
  scopes = codes "im" ∷ codes "doc" ∷ [];
  guest = false;
  account_type = none;
  bot_permissions = none;
  iss = codes "https://oa.test";
  iat = pos 100;
  exp = pos 200;
  jti = codes "j1";
}

abbrev admin : Claims Tree
admin = record member_claims { roles = member_claims.roles ++ codes "admin" ∷ [] }

abbrev superadmin : Claims Tree
superadmin = record member_claims { roles = codes "superadmin" ∷ [] }

abbrev guest : Claims Tree
guest = record member_claims {
  guest = true;
  account_type = none;
  bot_permissions = none;
  scopes = codes "meeting:abc" ∷ [];
  roles = [];
}

abbrev access : Bool → Bool → Tree
access read write =
    tree_serde.from_members
      ((codes "read", tree_serde.from_bool read) ∷ (codes "write", tree_serde.from_bool write) ∷ [])

abbrev bot : Claims Tree
bot = record member_claims {
  account_type = some (codes "bot");
  bot_permissions = some (
      tree_serde.from_members
        ((codes "task", access true false) ∷ (codes "im", access true true) ∷ []));
}

abbrev minimal : Tree
minimal = tree_serde.from_members (
    (codes "sub", tree_serde.from_str (codes "u"))
    ∷ (codes "name", tree_serde.from_str (codes "n"))
    ∷ (codes "iss", tree_serde.from_str (codes "i"))
    ∷ (codes "iat", tree_serde.from_int (pos 1))
    ∷ (codes "exp", tree_serde.from_int (pos 2))
    ∷ (codes "jti", tree_serde.from_str (codes "j"))
    ∷ [])

-- What a minimal payload is read as.
abbrev plain : Claims Tree
plain = record {
  sub = codes "u";
  name = codes "n";
  avatar = none;
  roles = [];
  scopes = [];
  guest = false;
  account_type = none;
  bot_permissions = none;
  iss = codes "i";
  iat = pos 1;
  exp = pos 2;
  jti = codes "j";
}

-- checks_roles_and_admin.
ChecksRolesAndAdmin : Type 0
ChecksRolesAndAdmin =
    (has_role member_claims (codes "member") ≡ true)
    × (has_role member_claims (codes "admin") ≡ false)
    × (is_admin member_claims ≡ false)
    × (is_admin admin ≡ true)
    × (is_admin superadmin ≡ true)

ChecksRolesAndAdmin_holds : ChecksRolesAndAdmin
unfolding ChecksRolesAndAdmin has_role oa_libs.Std.Text.text_eq is_admin
ChecksRolesAndAdmin_holds = (refl, refl, refl, refl, refl)

-- checks_scopes.
ChecksScopes : Type 0
ChecksScopes =
    (has_scope member_claims (codes "im") ≡ true)
    × (has_scope member_claims (codes "task") ≡ false)
    × (is_guest guest ≡ true)
    × (has_resource_scope guest (codes "meeting") (codes "abc") ≡ true)
    × (has_resource_scope guest (codes "meeting") (codes "other") ≡ false)
    × (has_scope guest (codes "meeting") ≡ false)

ChecksScopes_holds : ChecksScopes
unfolding ChecksScopes has_scope oa_libs.Std.Text.text_eq is_guest has_resource_scope
ChecksScopes_holds = (refl, refl, refl, refl, refl, refl)

-- bot_permissions.
BotPermissions : Type 0
BotPermissions =
    (is_bot bot ≡ true)
    × (allow_module trees bot (codes "task") false ≡ true)
    × (allow_module trees bot (codes "task") true ≡ false)
    × (allow_module trees bot (codes "im") true ≡ true)
    × (allow_module trees bot (codes "doc") false ≡ false)
    × (is_bot member_claims ≡ false)
    × (allow_module trees member_claims (codes "doc") true ≡ true)

BotPermissions_holds : BotPermissions
unfolding BotPermissions is_bot oa_libs.Std.Text.text_eq allow_module oa_libs.Deps.Samples.tree_get
    oa_libs.Deps.Samples.of_members oa_libs.Deps.Samples.tree_bool
BotPermissions_holds = (refl, refl, refl, refl, refl, refl, refl)

-- checks_expiry.
ChecksExpiry : Type 0
ChecksExpiry =
    (is_expired member_claims (pos 199) ≡ false)
    × (is_expired member_claims (pos 200) ≡ true)
    × (is_expired member_claims (pos 201) ≡ true)

ChecksExpiry_holds : ChecksExpiry
unfolding ChecksExpiry is_expired
ChecksExpiry_holds = (refl, refl, refl)

-- serde_roundtrip_and_optional_fields.
SerdeRoundtripAndOptionalFields : Type 0
SerdeRoundtripAndOptionalFields =
    (trees.get (claims_to_value tree_serde member_claims) (codes "avatar") ≡ none)
    × (trees.get (claims_to_value tree_serde member_claims) (codes "guest")
        ≡ some (tree_serde.from_bool false))
    × (claims_from_value tree_serde (claims_to_value tree_serde member_claims) ≡ some member_claims)
    × (claims_from_value tree_serde minimal ≡ some plain)

SerdeRoundtripAndOptionalFields_holds : SerdeRoundtripAndOptionalFields
unfolding SerdeRoundtripAndOptionalFields oa_libs.Deps.Samples.tree_get claims_to_value
    oa_libs.Deps.Samples.of_members claims_from_value oa_libs.Deps.Serde.required
    oa_libs.Deps.Samples.tree_str oa_libs.Deps.Serde.nullable oa_libs.Deps.Serde.defaulted
    oa_libs.Deps.Serde.read_texts oa_libs.Deps.Samples.tree_items oa_libs.Deps.Serde.write_texts
    oa_libs.Deps.Samples.of_items oa_libs.Deps.Serde.each oa_libs.Deps.Samples.tree_bool
    oa_libs.Deps.Samples.tree_int oa_libs.Deps.Serde.then_read
SerdeRoundtripAndOptionalFields_holds = (refl, refl, refl, refl)
