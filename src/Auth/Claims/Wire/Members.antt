-- ===== src/Auth/Claims/Wire/Members.antt =====
-- The members of the payload of a token that jsonwebtoken itself looks at: the issuer, the time of expiry
-- and the audience, in the derived serde code of `Claims` in crates/auth-sdk/src/claims.rs.
use oa_libs.Base.{none, some, ◌≡◌, refl, ◌∙◌}
use oa_libs.Deps.{Json}
use oa_libs.Deps.Serde.{
  Serde, lookup, Yields, Yields-then_read, Yields-some, Yields-result, required, required-get,
}
use oa_libs.Std.Text.{codes, text_eq}
use oa_libs.Auth.Claims.{Claims}
use oa_libs.Auth.Claims.Wire.{
  claims_members, claims_to_value, claims_from_value, found, past_avatar, past_account_type,
  past_permissions, found_iss, found_exp,
}

module _ {J : Json} (S : Serde J) where
  open J use {Value, get, as_str, as_bool}
  open S use {from_str, from_bool, from_int, from_members, as_int, is_null}

  -- What is read names the issuer and the time of expiry of the object.
  abbrev Named : Value → Claims Value → Type 0
  Named v c =
      (required S as_str (codes "iss") v ≡ some c.iss)
      × (required S as_int (codes "exp") v ≡ some c.exp)

  claims_from_value-Named : (v : Value) → Yields (Named v) (claims_from_value S v)
  unfolding claims_from_value
  claims_from_value-Named v = Yields-then_read (Named v) _ _ λ sub _.
      Yields-then_read (Named v) _ _ λ name _. Yields-then_read (Named v) _ _ λ avatar _.
        Yields-then_read (Named v) _ _ λ roles _. Yields-then_read (Named v) _ _ λ scopes _.
          Yields-then_read (Named v) _ _ λ guest _. Yields-then_read (Named v) _ _ λ account_type _.
            Yields-then_read (Named v) _ _ λ permissions _.
              Yields-then_read (Named v) _ _ λ iss issued. Yields-then_read (Named v) _ _ λ iat _.
                Yields-then_read (Named v) _ _ λ exp expires.
                  Yields-then_read (Named v) _ _
                    λ jti _. Yields-result (Named v) _ (issued, expires)

  pub claims_from_value-members :
      (v : Value) (c : Claims Value) → claims_from_value S v ≡ some c → Named v c
  claims_from_value-members v c h =
      Yields-some (Named v) (claims_from_value S v) (claims_from_value-Named v) h

  -- The keys that jsonwebtoken looks at in what was written.
  pub claims_to_value-members :
      (c : Claims Value)
      → (required S as_str (codes "iss") (claims_to_value S c) ≡ some c.iss)
        × (required S as_int (codes "exp") (claims_to_value S c) ≡ some c.exp)
        × (get (claims_to_value S c) (codes "aud") ≡ none)
  unfolding claims_members lookup text_eq
  claims_to_value-members c =
      let v = claims_to_value S c in
      (
        required-get S as_str (codes "iss") v (found_iss S c) (S.as_str-from_str c.iss),
        required-get S as_int (codes "exp") v (found_exp S c) (S.as_int-from_int c.exp),
        found S c (codes "aud") (
            past_avatar S c (codes "aud") _ refl
            ∙ past_account_type S c (codes "aud") _ refl
            ∙ past_permissions S c (codes "aud") _ refl),
      )
