-- ===== src/Auth/Jwt/UnitTests.antt =====
-- The unit tests of crates/auth-sdk/src/jwt.rs, on the model and a token format that can be run.
use oa_libs.Base.{
  ◌≡◌, refl, Bool, true, false, none, some, List, [], ◌∷◌, ◌++◌, Result, ok, err, and_then, map_err,
}
use oa_libs.Deps.Samples.{Tree, tree_serde, marked_crypto}
use oa_libs.Std.Int.{ℤ, pos, negsuc, ◌+ℤ◌}
use oa_libs.Std.Text.{Text, codes, split, strip_prefix}
use oa_libs.Std.Utf8.{Bytes}
use oa_libs.Auth.Claims.{Claims}
use oa_libs.Auth.Jwt.{
  JwtError, expired, invalid, encoding, rs256, encode_access_token, decode_access_token,
}
use oa_libs.Auth.Jwt.Samples.{show}
use oa_libs.Auth.Jwt.Samples.Tokens.{tokens}
use oa_libs.Auth.Jwks.{key_id_from_pem}

-- The keys of the tests, instead of fresh ones of RSA.
abbrev private_pem : Bytes
private_pem = codes "-----BEGINrsa"

abbrev public_pem : Bytes
public_pem = codes "-----BEGINrsa"

-- sample_claims; the time is 1500.
abbrev sample_claims : ℤ → Claims Tree
sample_claims exp_offset = record {
  sub = codes "u1";
  name = codes "张三";
  avatar = none;
  roles = codes "member" ∷ [];
  scopes = codes "im" ∷ [];
  guest = false;
  account_type = none;
  bot_permissions = none;
  iss = codes "https://oa.test";
  iat = pos 1500;
  exp = pos 1500 +ℤ exp_offset;
  jti = codes "j1";
}

-- test_kid.
abbrev test_kid : Text
test_kid = key_id_from_pem marked_crypto public_pem

-- sign.
abbrev sign : Claims Tree → Result Text JwtError
sign claims = encode_access_token tree_serde tokens claims private_pem test_kid

-- A token under the key of `decoding_key` and an issuer.
abbrev verify : Text → Text → Result (Claims Tree) JwtError
verify issuer token =
    and_then (map_err invalid (tokens.decoding_key_from_rsa_pem public_pem))
      (λ key. decode_access_token tree_serde tokens token key issuer)

abbrev is_invalid : {A : Type 0} → Result A JwtError → Bool
is_invalid (err (invalid text)) = true
is_invalid _ = false

abbrev is_encoding : {A : Type 0} → Result A JwtError → Bool
is_encoding (err (encoding text)) = true
is_encoding _ = false

abbrev issuer : Text
issuer = codes "https://oa.test"

-- The payload of an attacker.
abbrev attacker : Tree
attacker = tree_serde.from_members (
    (codes "sub", tree_serde.from_str (codes "attacker"))
    ∷ (codes "name", tree_serde.from_str (codes "x"))
    ∷ (codes "iss", tree_serde.from_str issuer)
    ∷ (codes "iat", tree_serde.from_int (pos 1))
    ∷ (codes "exp", tree_serde.from_int (pos 9999999999))
    ∷ (codes "jti", tree_serde.from_str (codes "j"))
    ∷ [])

-- The token with another payload between its first and its last part.
abbrev forged : List Text → Text
forged (first ∷ payload ∷ last ∷ []) = first ++ b'.' ∷ (show attacker ++ b'.' ∷ last)
forged _ = []

-- sign_and_verify_roundtrip.
SignAndVerifyRoundtrip : Type 0
SignAndVerifyRoundtrip =
    (and_then (sign (sample_claims (pos 3600))) (verify issuer) ≡ ok (sample_claims (pos 3600)))
    × (and_then (sign (sample_claims (pos 3600)))
          (λ token. map_err (λ kind. expired) (tokens.decode_header token))
        ≡ ok (record { alg = rs256; kid = some test_kid }))

SignAndVerifyRoundtrip_holds : SignAndVerifyRoundtrip
unfolding SignAndVerifyRoundtrip strip_prefix split oa_libs.Auth.Jwt.Samples.Tokens.header_of
    oa_libs.Auth.Jwt.map_kind decode_access_token encode_access_token
    oa_libs.Auth.Jwt.Samples.Tokens.decoded oa_libs.Auth.Jwt.Samples.Tokens.opened
    oa_libs.Auth.Jwt.Samples.read_part oa_libs.Auth.Jwt.Samples.show
    oa_libs.Auth.Jwks.key_id_from_pem oa_libs.Auth.Claims.Wire.claims_to_value
    oa_libs.Deps.Samples.of_members oa_libs.Deps.Serde.write_texts oa_libs.Deps.Samples.of_items
    oa_libs.Std.Text.text_eq oa_libs.Auth.Jwt.Samples.Tokens.signature
    oa_libs.Auth.Claims.Wire.claims_from_value oa_libs.Deps.Serde.required
    oa_libs.Deps.Samples.tree_get oa_libs.Deps.Samples.tree_str oa_libs.Deps.Serde.nullable
    oa_libs.Auth.Claims.Wire.claims_members oa_libs.Auth.Jwt.Samples.Tokens.checked
    oa_libs.Auth.Jwt.Samples.Tokens.part oa_libs.Auth.Jwt.Samples.put
    oa_libs.Auth.Jwt.Samples.show_text oa_libs.Deps.Samples.tree_bool oa_libs.Deps.Samples.tree_int
    oa_libs.Deps.Samples.tree_items oa_libs.Deps.Samples.tree_null oa_libs.Deps.Serde.defaulted
    oa_libs.Deps.Serde.each oa_libs.Deps.Serde.present_or oa_libs.Deps.Serde.present_some
    oa_libs.Deps.Serde.read_texts oa_libs.Deps.Serde.then_read oa_libs.Std.Int.◌+ℤ◌
SignAndVerifyRoundtrip_holds = (refl, refl)

-- rejects_expired_token.
RejectsExpiredToken : Type 0
RejectsExpiredToken = and_then (sign (sample_claims (negsuc 119))) (verify issuer) ≡ err expired

RejectsExpiredToken_holds : RejectsExpiredToken
unfolding RejectsExpiredToken strip_prefix split oa_libs.Auth.Jwt.Samples.Tokens.header_of
    oa_libs.Auth.Jwt.map_kind decode_access_token encode_access_token
    oa_libs.Auth.Jwt.Samples.Tokens.decoded oa_libs.Auth.Jwt.Samples.Tokens.opened
    oa_libs.Auth.Jwt.Samples.read_part oa_libs.Auth.Jwt.Samples.show
    oa_libs.Auth.Jwks.key_id_from_pem oa_libs.Auth.Claims.Wire.claims_to_value
    oa_libs.Deps.Samples.of_members oa_libs.Deps.Serde.write_texts oa_libs.Deps.Samples.of_items
    oa_libs.Std.Text.text_eq oa_libs.Auth.Jwt.Samples.Tokens.signature
    oa_libs.Auth.Claims.Wire.claims_from_value oa_libs.Deps.Serde.required
    oa_libs.Deps.Samples.tree_get oa_libs.Deps.Samples.tree_str oa_libs.Deps.Serde.nullable
    oa_libs.Auth.Claims.Wire.claims_members oa_libs.Auth.Jwt.Samples.Tokens.checked
    oa_libs.Auth.Jwt.Samples.Tokens.part oa_libs.Auth.Jwt.Samples.put
    oa_libs.Auth.Jwt.Samples.show_text oa_libs.Deps.Samples.tree_bool oa_libs.Deps.Samples.tree_int
    oa_libs.Deps.Samples.tree_items oa_libs.Deps.Samples.tree_null oa_libs.Deps.Serde.defaulted
    oa_libs.Deps.Serde.each oa_libs.Deps.Serde.present_or oa_libs.Deps.Serde.present_some
    oa_libs.Deps.Serde.read_texts oa_libs.Deps.Serde.then_read oa_libs.Std.Int.◌+ℤ◌
RejectsExpiredToken_holds = refl

-- rejects_wrong_issuer.
RejectsWrongIssuer : Type 0
RejectsWrongIssuer =
    is_invalid (and_then (sign (sample_claims (pos 3600))) (verify (codes "https://evil.test")))
    ≡ true

RejectsWrongIssuer_holds : RejectsWrongIssuer
unfolding RejectsWrongIssuer strip_prefix split oa_libs.Auth.Jwt.Samples.Tokens.header_of
    oa_libs.Auth.Jwt.map_kind decode_access_token encode_access_token
    oa_libs.Auth.Jwt.Samples.Tokens.decoded oa_libs.Auth.Jwt.Samples.Tokens.opened
    oa_libs.Auth.Jwt.Samples.read_part oa_libs.Auth.Jwt.Samples.show
    oa_libs.Auth.Jwks.key_id_from_pem oa_libs.Auth.Claims.Wire.claims_to_value
    oa_libs.Deps.Samples.of_members oa_libs.Deps.Serde.write_texts oa_libs.Deps.Samples.of_items
    oa_libs.Std.Text.text_eq oa_libs.Auth.Jwt.Samples.Tokens.signature
    oa_libs.Auth.Claims.Wire.claims_from_value oa_libs.Deps.Serde.required
    oa_libs.Deps.Samples.tree_get oa_libs.Deps.Samples.tree_str oa_libs.Deps.Serde.nullable
    oa_libs.Auth.Claims.Wire.claims_members oa_libs.Auth.Jwt.Samples.Tokens.checked
    oa_libs.Auth.Jwt.Samples.Tokens.part oa_libs.Auth.Jwt.Samples.put
    oa_libs.Auth.Jwt.Samples.show_text oa_libs.Deps.Samples.tree_bool oa_libs.Deps.Samples.tree_int
    oa_libs.Deps.Samples.tree_items oa_libs.Deps.Samples.tree_null oa_libs.Deps.Serde.defaulted
    oa_libs.Deps.Serde.each oa_libs.Deps.Serde.present_or oa_libs.Deps.Serde.present_some
    oa_libs.Deps.Serde.read_texts oa_libs.Deps.Serde.then_read oa_libs.Std.Int.◌+ℤ◌
RejectsWrongIssuer_holds = refl

-- rejects_tampered_token.
RejectsTamperedToken : Type 0
RejectsTamperedToken =
    (is_invalid
        (and_then (sign (sample_claims (pos 3600))) (λ token. verify issuer (token ++ b'x' ∷ [])))
      ≡ true)
    × (is_invalid (
          and_then (sign (sample_claims (pos 3600)))
            (λ token. verify issuer (forged (split b'.' token))))
        ≡ true)

RejectsTamperedToken_holds : RejectsTamperedToken
unfolding RejectsTamperedToken strip_prefix split oa_libs.Auth.Jwt.Samples.Tokens.header_of
    oa_libs.Auth.Jwt.map_kind decode_access_token encode_access_token
    oa_libs.Auth.Jwt.Samples.Tokens.decoded oa_libs.Auth.Jwt.Samples.Tokens.opened
    oa_libs.Auth.Jwt.Samples.read_part oa_libs.Auth.Jwt.Samples.show
    oa_libs.Auth.Jwks.key_id_from_pem oa_libs.Auth.Claims.Wire.claims_to_value
    oa_libs.Deps.Samples.of_members oa_libs.Deps.Serde.write_texts oa_libs.Deps.Samples.of_items
    oa_libs.Std.Text.text_eq oa_libs.Auth.Jwt.Samples.Tokens.signature
    oa_libs.Auth.Claims.Wire.claims_from_value oa_libs.Deps.Serde.required
    oa_libs.Deps.Samples.tree_get oa_libs.Deps.Samples.tree_str oa_libs.Deps.Serde.nullable
    oa_libs.Auth.Claims.Wire.claims_members oa_libs.Auth.Jwt.Samples.Tokens.checked
    oa_libs.Auth.Jwt.Samples.Tokens.part oa_libs.Auth.Jwt.Samples.put
    oa_libs.Auth.Jwt.Samples.show_text oa_libs.Deps.Samples.tree_bool oa_libs.Deps.Samples.tree_int
    oa_libs.Deps.Samples.tree_items oa_libs.Deps.Samples.tree_null oa_libs.Deps.Serde.defaulted
    oa_libs.Deps.Serde.each oa_libs.Deps.Serde.present_or oa_libs.Deps.Serde.present_some
    oa_libs.Deps.Serde.read_texts oa_libs.Deps.Serde.then_read oa_libs.Std.Int.◌+ℤ◌
RejectsTamperedToken_holds = (refl, refl)

-- rejects_invalid_encoding_key.
RejectsInvalidEncodingKey : Type 0
RejectsInvalidEncodingKey =
    is_encoding (
      encode_access_token tree_serde tokens (sample_claims (pos 3600)) (codes "not-a-pem")
        (codes "kid"))
    ≡ true

RejectsInvalidEncodingKey_holds : RejectsInvalidEncodingKey
unfolding RejectsInvalidEncodingKey strip_prefix split oa_libs.Auth.Jwt.Samples.Tokens.header_of
    oa_libs.Auth.Jwt.map_kind decode_access_token encode_access_token
    oa_libs.Auth.Jwt.Samples.Tokens.decoded oa_libs.Auth.Jwt.Samples.Tokens.opened
    oa_libs.Auth.Jwt.Samples.read_part oa_libs.Auth.Jwt.Samples.show
    oa_libs.Auth.Jwks.key_id_from_pem oa_libs.Auth.Claims.Wire.claims_to_value
    oa_libs.Deps.Samples.of_members oa_libs.Deps.Serde.write_texts oa_libs.Deps.Samples.of_items
    oa_libs.Std.Text.text_eq oa_libs.Auth.Jwt.Samples.Tokens.signature
    oa_libs.Auth.Claims.Wire.claims_from_value oa_libs.Deps.Serde.required
    oa_libs.Deps.Samples.tree_get oa_libs.Deps.Samples.tree_str oa_libs.Deps.Serde.nullable
    oa_libs.Auth.Claims.Wire.claims_members oa_libs.Auth.Jwt.Samples.Tokens.checked
    oa_libs.Auth.Jwt.Samples.Tokens.part oa_libs.Auth.Jwt.Samples.put
    oa_libs.Auth.Jwt.Samples.show_text oa_libs.Deps.Samples.tree_bool oa_libs.Deps.Samples.tree_int
    oa_libs.Deps.Samples.tree_items oa_libs.Deps.Samples.tree_null oa_libs.Deps.Serde.defaulted
    oa_libs.Deps.Serde.each oa_libs.Deps.Serde.present_or oa_libs.Deps.Serde.present_some
    oa_libs.Deps.Serde.read_texts oa_libs.Deps.Serde.then_read oa_libs.Std.Int.◌+ℤ◌
RejectsInvalidEncodingKey_holds = refl
