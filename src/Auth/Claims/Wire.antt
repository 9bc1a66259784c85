-- ===== src/Auth/Claims/Wire.antt =====
-- The payload of a token as JSON: the derived serde code of `Claims` in crates/auth-sdk/src/claims.rs,
-- by the attributes of its fields, and that what one service writes another reads.
pub mod Members
use oa_libs.Base.{false, Option, none, some, List, [], ◌∷◌, ◌++◌, ◌≡◌, refl, ◌∙◌, subst}
use oa_libs.Deps.{Json}
use oa_libs.Deps.Serde.{
  Serde, lookup, then_read, Yields, Yields-then_read, Yields-some, Yields-result, optional, written,
  lookup-optional, lookup_past_optional, required, defaulted, nullable, read_texts, write_texts,
  read_texts-write_texts, required-get, defaulted-get, nullable-get,
}
use oa_libs.Std.Text.{Text, codes, text_eq}
use oa_libs.Std.Int.{ℤ}
use oa_libs.Auth.Claims.{Claims}

module _ {J : Json} (S : Serde J) where
  open J use {Value, get, as_str, as_bool}
  open S use {from_str, from_bool, from_int, from_members, as_int, is_null}

  -- The members that the derived `Serialize` writes.
  unfoldable pub claims_members : Claims Value → List (Text × Value)
  claims_members c =
      (codes "sub", from_str c.sub)
      ∷ (codes "name", from_str c.name)
      ∷ (optional (codes "avatar") from_str c.avatar
          ++ (codes "roles", write_texts S c.roles)
            ∷ (codes "scopes", write_texts S c.scopes)
            ∷ (codes "guest", from_bool c.guest)
            ∷ (optional (codes "account_type") from_str c.account_type
                ++ (optional (codes "bot_permissions") (λ v. v) c.bot_permissions
                    ++ (codes "iss", from_str c.iss)
                      ∷ (codes "iat", from_int c.iat)
                      ∷ (codes "exp", from_int c.exp)
                      ∷ (codes "jti", from_str c.jti)
                      ∷ [])))

  unfoldable pub claims_to_value : Claims Value → Value
  unfolding claims_members
  claims_to_value c = from_members (claims_members c)

  -- The derived `Deserialize`, on an object.
  unfoldable pub claims_from_value : Value → Option (Claims Value)
  claims_from_value v = then_read (required S as_str (codes "sub") v) λ sub.
      then_read (required S as_str (codes "name") v) λ name.
        then_read (nullable S as_str (codes "avatar") v) λ avatar.
          then_read (defaulted S (read_texts S) [] (codes "roles") v) λ roles.
            then_read (defaulted S (read_texts S) [] (codes "scopes") v) λ scopes.
              then_read (defaulted S as_bool false (codes "guest") v) λ guest.
                then_read (nullable S as_str (codes "account_type") v) λ account_type.
                  then_read (nullable S (λ m. some m) (codes "bot_permissions") v)
                    λ bot_permissions. then_read (required S as_str (codes "iss") v) λ iss.
                      then_read (required S as_int (codes "iat") v) λ iat.
                        then_read (required S as_int (codes "exp") v) λ exp.
                          then_read (required S as_str (codes "jti") v) λ jti. some record {
                            sub = sub;
                            name = name;
                            avatar = avatar;
                            roles = roles;
                            scopes = scopes;
                            guest = guest;
                            account_type = account_type;
                            bot_permissions = bot_permissions;
                            iss = iss;
                            iat = iat;
                            exp = exp;
                            jti = jti;
                          }

  found :
      (c : Claims Value) (key : Text) {o : Option Value}
      → lookup key (claims_members c) ≡ o
      → get (claims_to_value c) key ≡ o
  unfolding claims_to_value
  found c key h = S.get-from_members (claims_members c) key ∙ h

  -- Every key leads to what was written under it.
  module _ (c : Claims Value) where
    past_avatar :
        (key : Text) (rest : List (Text × Value))
        → text_eq (codes "avatar") key ≡ false
        → lookup key (optional (codes "avatar") from_str c.avatar ++ rest) ≡ lookup key rest
    past_avatar key rest = lookup_past_optional key (codes "avatar") from_str c.avatar rest

    past_account_type :
        (key : Text) (rest : List (Text × Value))
        → text_eq (codes "account_type") key ≡ false
        → lookup key (optional (codes "account_type") from_str c.account_type ++ rest)
          ≡ lookup key rest
    past_account_type key rest =
        lookup_past_optional key (codes "account_type") from_str c.account_type rest

    past_permissions :
        (key : Text) (rest : List (Text × Value))
        → text_eq (codes "bot_permissions") key ≡ false
        → lookup key (optional (codes "bot_permissions") (λ v. v) c.bot_permissions ++ rest)
          ≡ lookup key rest
    past_permissions key rest =
        lookup_past_optional key (codes "bot_permissions") (λ v. v) c.bot_permissions rest

    found_sub : get (claims_to_value c) (codes "sub") ≡ some (from_str c.sub)
    unfolding claims_members lookup text_eq
    found_sub = found c (codes "sub") (refl)

    found_name : get (claims_to_value c) (codes "name") ≡ some (from_str c.name)
    unfolding claims_members lookup text_eq
    found_name = found c (codes "name") (refl)

    found_avatar : get (claims_to_value c) (codes "avatar") ≡ written from_str c.avatar
    unfolding claims_members lookup text_eq
    found_avatar = found c (codes "avatar") (
        lookup-optional (codes "avatar") from_str c.avatar _ refl
          (past_account_type (codes "avatar") _ refl ∙ past_permissions (codes "avatar") _ refl))

    found_roles : get (claims_to_value c) (codes "roles") ≡ some (write_texts S c.roles)
    unfolding claims_members lookup text_eq
    found_roles = found c (codes "roles") (past_avatar (codes "roles") _ refl)

    found_scopes : get (claims_to_value c) (codes "scopes") ≡ some (write_texts S c.scopes)
    unfolding claims_members lookup text_eq
    found_scopes = found c (codes "scopes") (past_avatar (codes "scopes") _ refl)

    found_guest : get (claims_to_value c) (codes "guest") ≡ some (from_bool c.guest)
    unfolding claims_members lookup text_eq
    found_guest = found c (codes "guest") (past_avatar (codes "guest") _ refl)

    found_account_type :
        get (claims_to_value c) (codes "account_type") ≡ written from_str c.account_type
    unfolding claims_members lookup text_eq
    found_account_type = found c (codes "account_type") (
        past_avatar (codes "account_type") _ refl
        ∙ lookup-optional (codes "account_type") from_str c.account_type _ refl
            (past_permissions (codes "account_type") _ refl))

    found_bot_permissions :
        get (claims_to_value c) (codes "bot_permissions") ≡ written (λ v. v) c.bot_permissions
    unfolding claims_members lookup text_eq
    found_bot_permissions = found c (codes "bot_permissions") (
        past_avatar (codes "bot_permissions") _ refl
        ∙ past_account_type (codes "bot_permissions") _ refl
        ∙ lookup-optional (codes "bot_permissions") (λ v. v) c.bot_permissions _ refl refl)

    found_iss : get (claims_to_value c) (codes "iss") ≡ some (from_str c.iss)
    unfolding claims_members lookup text_eq
    found_iss = found c (codes "iss") (
        past_avatar (codes "iss") _ refl
        ∙ past_account_type (codes "iss") _ refl
        ∙ past_permissions (codes "iss") _ refl)

    found_iat : get (claims_to_value c) (codes "iat") ≡ some (from_int c.iat)
    unfolding claims_members lookup text_eq
    found_iat = found c (codes "iat") (
        past_avatar (codes "iat") _ refl
        ∙ past_account_type (codes "iat") _ refl
        ∙ past_permissions (codes "iat") _ refl)

    found_exp : get (claims_to_value c) (codes "exp") ≡ some (from_int c.exp)
    unfolding claims_members lookup text_eq
    found_exp = found c (codes "exp") (
        past_avatar (codes "exp") _ refl
        ∙ past_account_type (codes "exp") _ refl
        ∙ past_permissions (codes "exp") _ refl)

    found_jti : get (claims_to_value c) (codes "jti") ≡ some (from_str c.jti)
    unfolding claims_members lookup text_eq
    found_jti = found c (codes "jti") (
        past_avatar (codes "jti") _ refl
        ∙ past_account_type (codes "jti") _ refl
        ∙ past_permissions (codes "jti") _ refl)

  -- The payload holds no permissions, or some that are not the value `null`.
  abbrev pub HasNoNull : Option Value → Type 0
  HasNoNull none = Unit
  HasNoNull (some v) = is_null v ≡ false

  -- The claims that are written to a token are the claims that are read from it, if the permissions of a
  -- bot are not the JSON value `null`, which is read as none.
  pub claims_from_value-claims_to_value :
      (c : Claims Value)
      → HasNoNull c.bot_permissions
      → claims_from_value (claims_to_value c) ≡ some c
  unfolding claims_from_value then_read
  claims_from_value-claims_to_value c full =
      let v = claims_to_value c in
      let text = λ (key : Text) (s : Text) (h : get v key ≡ some (from_str s)).
        required-get S as_str key v h (S.as_str-from_str s) in
      let int = λ (key : Text) (n : ℤ) (h : get v key ≡ some (from_int n)).
        required-get S as_int key v h (S.as_int-from_int n) in
      rw
        (
          text (codes "sub") c.sub (found_sub c),
          text (codes "name") c.name (found_name c),
          nullable-get S as_str from_str (codes "avatar") v c.avatar (found_avatar c)
              (λ a _. (S.is_null-from_str a, S.as_str-from_str a)),
          defaulted-get S (read_texts S) [] (codes "roles") v (found_roles c)
              (read_texts-write_texts S c.roles),
          defaulted-get S (read_texts S) [] (codes "scopes") v (found_scopes c)
              (read_texts-write_texts S c.scopes),
          defaulted-get S as_bool false (codes "guest") v (found_guest c)
              (S.as_bool-from_bool c.guest),
          nullable-get S as_str from_str (codes "account_type") v c.account_type
              (found_account_type c) (λ a _. (S.is_null-from_str a, S.as_str-from_str a)),
          nullable-get S (λ m. some m) (λ m. m) (codes "bot_permissions") v c.bot_permissions
              (found_bot_permissions c) (λ a held. (subst HasNoNull held full, refl)),
          text (codes "iss") c.iss (found_iss c),
          int (codes "iat") c.iat (found_iat c),
          int (codes "exp") c.exp (found_exp c),
          text (codes "jti") c.jti (found_jti c),
        )
        refl
