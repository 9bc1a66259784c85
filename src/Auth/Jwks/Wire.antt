-- ===== src/Auth/Jwks/Wire.antt =====
-- Key sets as JSON: the derived serde code of `Jwk` and `Jwks` in crates/auth-sdk/src/jwks.rs.
use oa_libs.Base.{Option, some, List, [], ◌∷◌, map, ◌≡◌, refl, ◌∙◌}
use oa_libs.Deps.{Json}
use oa_libs.Deps.Serde.{Serde, lookup, then_read, each, each-map, required, required-get}
use oa_libs.Std.Text.{Text, codes, text_eq}
use oa_libs.Auth.Jwks.{Jwk, Jwks}

module _ {J : Json} (S : Serde J) where
  open J use {Value, get, as_str}
  open S use {from_str, from_list, from_members, as_list}

  -- The members that the derived `Serialize` of `Jwk` writes.
  jwk_members : Jwk → List (Text × Value)
  jwk_members k =
      (codes "kty", from_str k.kty)
      ∷ (codes "kid", from_str k.kid)
      ∷ (codes "use", from_str k.use_)
      ∷ (codes "alg", from_str k.alg)
      ∷ (codes "n", from_str k.n)
      ∷ (codes "e", from_str k.e)
      ∷ []

  unfoldable pub jwk_to_value : Jwk → Value
  unfolding jwk_members
  jwk_to_value k = from_members (jwk_members k)

  -- The derived `Deserialize` of `Jwk`, on an object.
  unfoldable pub jwk_from_value : Value → Option Jwk
  jwk_from_value v = then_read (required S as_str (codes "kty") v) λ kty.
      then_read (required S as_str (codes "kid") v) λ kid.
        then_read (required S as_str (codes "use") v) λ use_.
          then_read (required S as_str (codes "alg") v) λ alg.
            then_read (required S as_str (codes "n") v) λ n.
              then_read (required S as_str (codes "e") v)
                λ e. some record { kty = kty; kid = kid; use_ = use_; alg = alg; n = n; e = e }

  -- The derived code of `Jwks`.
  unfoldable pub jwks_to_value : Jwks → Value
  jwks_to_value ks = from_members ((codes "keys", from_list (map jwk_to_value ks.keys)) ∷ [])

  read_keys : Value → Option (List Jwk)
  read_keys v = then_read (as_list v) (each jwk_from_value)

  unfoldable pub jwks_from_value : Value → Option Jwks
  unfolding read_keys
  jwks_from_value v =
      then_read (required S read_keys (codes "keys") v) λ keys. some record { keys = keys }

  read_member :
      (k : Jwk) (key s : Text)
      → lookup key (jwk_members k) ≡ some (from_str s)
      → required S as_str key (jwk_to_value k) ≡ some s
  unfolding jwk_to_value
  read_member k key s h =
      required-get S as_str key (jwk_to_value k) (S.get-from_members (jwk_members k) key ∙ h)
        (S.as_str-from_str s)

  jwk_from_value-jwk_to_value : (k : Jwk) → jwk_from_value (jwk_to_value k) ≡ some k
  unfolding jwk_from_value jwk_members lookup text_eq then_read
  jwk_from_value-jwk_to_value k =
      rw
        (
          read_member k (codes "kty") k.kty refl,
          read_member k (codes "kid") k.kid refl,
          read_member k (codes "use") k.use_ refl,
          read_member k (codes "alg") k.alg refl,
          read_member k (codes "n") k.n refl,
          read_member k (codes "e") k.e refl,
        )
        refl

  read_keys-written : (keys : List Jwk) → read_keys (from_list (map jwk_to_value keys)) ≡ some keys
  unfolding read_keys then_read each
  read_keys-written keys =
      rw (S.as_list-from_list (map jwk_to_value keys))
        (each-map jwk_from_value jwk_to_value keys jwk_from_value-jwk_to_value)

  -- The key set that is read is the one that was written.
  pub jwks_from_value-jwks_to_value : (ks : Jwks) → jwks_from_value (jwks_to_value ks) ≡ some ks
  unfolding jwks_from_value jwks_to_value lookup text_eq then_read
  jwks_from_value-jwks_to_value ks =
      rw
        (required-get S read_keys (codes "keys") (jwks_to_value ks)
          (S.get-from_members ((codes "keys", from_list (map jwk_to_value ks.keys)) ∷ [])
            (codes "keys"))
          (read_keys-written ks.keys))
        refl
