-- ===== src/Auth/Jwks/Issuing.antt =====
-- From the service that signs an access token to the one that verifies it with a fetched key set:
-- crates/auth-sdk/src/jwt.rs and jwks.rs together, with the payload of claims.rs.
use oa_libs.Base.{
  arith, subst, ◌≡◌, ◌≢◌, refl, ap, inl, ok, err, Result, and_then, map_err, some, List, ◌∷◌, ◌++◌,
  All,
}
use oa_libs.Deps.{Json, Crypto}
use oa_libs.Deps.Serde.{Serde, written}
use oa_libs.Std.Text.{Text}
use oa_libs.Std.Utf8.{Bytes}
use oa_libs.Auth.Claims.{Claims}
use oa_libs.Auth.Claims.Wire.Members.{claims_to_value-members}
use oa_libs.Auth.Claims.Wire.{
  HasNoNull, claims_to_value, claims_from_value, claims_from_value-claims_to_value,
}
use oa_libs.Auth.Jwt.{
  encoding, rs256, JsonWebToken, encode_access_token, decode_access_token, validation_for,
}
use oa_libs.Auth.Jwt.Checks.{TokenLaws}
use oa_libs.Auth.Jwks.{Jwk, key_id_from_pem, jwk_from_rsa_public_components, decoding_key_from_jwks}
use oa_libs.Auth.Jwks.Selection.{decoding_key-published}
use oa_libs.Auth.Jwks.Wire.{jwks_to_value, jwks_from_value, jwks_from_value-jwks_to_value}

-- An error that is mapped is still an error.
map_err-ok : {A E F : Type 0} (f : E → F) (r : Result A E) (a : A) → map_err f r ≡ ok a → r ≡ ok a
map_err-ok f (ok b) a h = ground arith
map_err-ok f (err e) a h = absurd (cc)

module _ {J : Json} (S : Serde J) (W : JsonWebToken J.Value) (L : TokenLaws S W) where
  signed :
      (c : Claims J.Value) (private_pem : Bytes) (kid : Text) (ek : W.EncodingKey) (token : Text)
      → W.encoding_key_from_rsa_pem private_pem ≡ ok ek
      → encode_access_token S W c private_pem kid ≡ ok token
      → W.encode (record { alg = rs256; kid = some kid }) (claims_to_value S c) ek ≡ ok token
  unfolding encode_access_token
  signed c private_pem kid ek token pem h =
      let made = W.encode (record { alg = rs256; kid = some kid }) (claims_to_value S c) ek in
      map_err-ok encoding made token (
        subst
          (λ r.
            and_then (map_err encoding r) (λ key.
              map_err encoding
                (W.encode (record { alg = rs256; kid = some kid }) (claims_to_value S c) key))
            ≡ ok token)
          pem h)

  decoded :
      (c : Claims J.Value) (kid : Text) (ek : W.EncodingKey) (dk : W.DecodingKey) (token : Text)
      → HasNoNull S c.bot_permissions
      → L.Belongs ek dk
      → L.InTime c.exp
      → W.encode (record { alg = rs256; kid = some kid }) (claims_to_value S c) ek ≡ ok token
      → decode_access_token S W token dk c.iss ≡ ok c
  unfolding decode_access_token
  decoded c kid ek dk token full belongs lasts made =
      let (issuer, exp, no_audience) = claims_to_value-members S c in
      ap (map_err _) (
        L.decode-encode (claims_from_value S) (record { alg = rs256; kid = some kid })
          (claims_to_value S c) ek dk token (validation_for c.iss) c c.iss c.exp made belongs refl
          issuer (inl refl) exp lasts no_audience (claims_from_value-claims_to_value S c full))

  -- A service that signs claims gives its token the identifier that it derives from its public key, and
  -- another service that fetches the key set as JSON, picks the key under that identifier and
  -- expects the issuer of the claims reads exactly the claims that were signed. The conditions are that
  -- the signing succeeded, that the published modulus and exponent are those of the signing key,
  -- that no key before it in the set has the same identifier, that the claims have not expired, and
  -- that the permissions of a bot are not the JSON value `null`.
  pub issued_token_is_read :
      (C : Crypto) (c : Claims J.Value) (private_pem public_pem modulus exponent : Bytes)
      (ek : W.EncodingKey) (dk : W.DecodingKey) (older newer : List Jwk) (token : Text)
      → HasNoNull S c.bot_permissions
      → W.encoding_key_from_rsa_pem private_pem ≡ ok ek
      → W.decoding_key_from_rsa_components (C.encode modulus) (C.encode exponent) ≡ ok dk
      → L.Belongs ek dk
      → L.InTime c.exp
      → All (λ j. j.kid ≢ key_id_from_pem C public_pem) older
      → encode_access_token S W c private_pem (key_id_from_pem C public_pem) ≡ ok token
      → (W.decode_header token
          ≡ ok record { alg = rs256; kid = some (key_id_from_pem C public_pem) })
        × (written
              (λ ks.
                and_then
                  (decoding_key_from_jwks W ks (some (key_id_from_pem C public_pem)))
                  (λ key. decode_access_token S W token key c.iss))
              (jwks_from_value S (
                jwks_to_value S (record {
                  keys =
                      older
                      ++ jwk_from_rsa_public_components C
                          (key_id_from_pem C public_pem)
                          modulus
                          exponent
                        ∷ newer;
                })))
            ≡ some (ok c))
  issued_token_is_read C c private_pem public_pem modulus exponent ek dk older newer token full pem
        components belongs lasts others h =
      let kid = key_id_from_pem C public_pem in
      let made = signed c private_pem kid ek token pem h in
      let keys = older ++ jwk_from_rsa_public_components C kid modulus exponent ∷ newer in
      (
        L.decode_header-encode (record { alg = rs256; kid = some kid }) (claims_to_value S c) ek
            token made,
        rw
            (
              jwks_from_value-jwks_to_value S (record { keys = keys }),
              decoding_key-published C W kid modulus exponent older newer others,
              components,
            )
            (ap some (decoded c kid ek dk token full belongs lasts made)),
      )
