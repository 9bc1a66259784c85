-- ===== src/Auth/Jwks/Examples.antt =====
-- Key selection and token checks with concrete keys and tokens.
use oa_libs.Base.{any, ◌≡◌, ◌≢◌, refl, some, [], ◌∷◌, ◌++◌, Bool, Result, ok, arith, and_then}
use oa_libs.Deps.Samples.{Tree, toy_crypto, tree_serde}
use oa_libs.Std.Int.{pos, ltb_ℤ}
use oa_libs.Std.Text.{Text, codes, text_eq, strip_prefix}
use oa_libs.Std.Utf8.{Bytes}
use oa_libs.Auth.Claims.{Claims}
use oa_libs.Auth.Claims.Examples.{bot, bot-HasNoNull}
use oa_libs.Auth.Claims.Wire.{claims_to_value}
use oa_libs.Auth.Jwt.Samples.Tokens.{tokens, token_of, header_tree}
use oa_libs.Auth.Jwt.Samples.Laws.{token_laws}
use oa_libs.Auth.Jwks.Issuing.{issued_token_is_read}
use oa_libs.Auth.Jwt.{
  encode_access_token, JwtError, invalid, rs256, Validation, ErrorKind, expired_signature,
  other_kind, JsonWebToken, decode_access_token,
}
use oa_libs.Auth.Jwks.{key_id_from_pem, Jwk, jwk_from_rsa_public_components, decoding_key_from_jwks}
use oa_libs.Auth.Jwt.Checks.{decode_access_token_checks}
use oa_libs.Auth.Jwks.Wire.{jwks_from_value, jwks_to_value}
use oa_libs.Deps.Serde.{written}

abbrev old_key : Jwk
old_key = record {
  kty = codes "RSA";
  kid = codes "k1";
  use_ = codes "sig";
  alg = codes "RS256";
  n = codes "n1";
  e = codes "e1";
}

abbrev new_key : Jwk
new_key = jwk_from_rsa_public_components toy_crypto (codes "k2") (codes "n2") (codes "e2")

abbrev issued_by : Validation → Claims Tree → Bool
issued_by v c = any (λ issuer. text_eq issuer c.iss) v.issuer

other_kid : old_key.kid ≢ codes "k2"
other_kid e = ground arith

abbrev private_pem : Bytes
private_pem = codes "-----BEGINn2"

abbrev kid : Text
kid = key_id_from_pem toy_crypto (codes "pem")

abbrev made : Result Text JwtError
made = encode_access_token tree_serde tokens bot private_pem kid

abbrev token : Text
token =
    token_of (header_tree (record { alg = rs256; kid = some kid })) (claims_to_value tree_serde bot)
      (codes "n2")

signed_token : made ≡ ok token
unfolding encode_access_token strip_prefix
signed_token = refl

accepted : decode_access_token tree_serde tokens token (codes "n2") (codes "club") ≡ ok bot
unfolding decode_access_token oa_libs.Auth.Jwt.Samples.Tokens.decoded
    oa_libs.Auth.Jwt.Samples.Tokens.opened oa_libs.Auth.Jwt.Samples.read_part
    oa_libs.Auth.Jwt.Samples.show key_id_from_pem claims_to_value oa_libs.Deps.Samples.of_members
    oa_libs.Deps.Serde.write_texts oa_libs.Deps.Samples.of_items text_eq
    oa_libs.Auth.Jwt.Samples.Tokens.signature oa_libs.Auth.Claims.Wire.claims_from_value
    oa_libs.Deps.Serde.required oa_libs.Deps.Samples.tree_get oa_libs.Deps.Samples.tree_str
    oa_libs.Deps.Serde.nullable oa_libs.Auth.Claims.Wire.claims_members
    oa_libs.Auth.Jwt.Samples.Tokens.checked oa_libs.Auth.Jwt.Samples.Tokens.part
    oa_libs.Auth.Jwt.Samples.put oa_libs.Auth.Jwt.Samples.show_text oa_libs.Deps.Samples.tree_bool
    oa_libs.Deps.Samples.tree_int oa_libs.Deps.Samples.tree_items oa_libs.Deps.Samples.tree_null
    oa_libs.Deps.Serde.defaulted oa_libs.Deps.Serde.each oa_libs.Deps.Serde.present_or
    oa_libs.Deps.Serde.present_some oa_libs.Deps.Serde.read_texts oa_libs.Deps.Serde.then_read
    oa_libs.Std.Int.◌+ℤ◌
accepted = refl

decode_access_token_checks_example :
    token_laws.Signed token (codes "n2") rs256
    × (bot.iss ≡ codes "club")
    × token_laws.InTime bot.exp
decode_access_token_checks_example =
    decode_access_token_checks tree_serde tokens token_laws token (codes "n2") (codes "club") bot
      accepted

old_kid : old_key.kid ≢ kid
unfolding key_id_from_pem
old_kid e = ground arith

issued_token_is_read_example :
    (tokens.decode_header token ≡ ok record { alg = rs256; kid = some kid })
    × (written
          (λ ks.
            and_then
              (decoding_key_from_jwks tokens ks (some kid))
              (λ key. decode_access_token tree_serde tokens token key (codes "club")))
          (jwks_from_value tree_serde (
            jwks_to_value tree_serde (record {
              keys =
                  (old_key ∷ [])
                  ++ jwk_from_rsa_public_components toy_crypto kid (codes "n2") (codes "e2") ∷ [];
            })))
        ≡ some (ok bot))
unfolding strip_prefix oa_libs.Std.Int.◌+ℤ◌
issued_token_is_read_example =
    issued_token_is_read tree_serde tokens token_laws toy_crypto bot private_pem (codes "pem")
      (codes "n2") (codes "e2") (codes "n2") (codes "n2") (old_key ∷ []) [] token bot-HasNoNull refl
      refl refl refl (old_kid, tt) signed_token
