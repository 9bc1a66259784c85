-- ===== src/Auth/Jwks/UnitTests.antt =====
-- The unit tests of crates/auth-sdk/src/jwks.rs, on the model and a toy digest.
use oa_libs.Base.{
  ◌≡◌, refl, Bool, true, false, none, some, [], ◌∷◌, Result, ok, err, is_err, is_empty,
}
use oa_libs.Deps.Samples.{trees, tree_serde, marked_crypto}
use oa_libs.Std.Text.{Text, codes, contains, text_eq}
use oa_libs.Auth.Jwt.{JwtError, expired, invalid, encoding}
use oa_libs.Auth.Jwks.{
  Jwk, Jwks, key_id_from_pem, jwk_from_rsa_public_components, decoding_key_from_jwk,
  decoding_key_from_jwks,
}
use oa_libs.Auth.Jwks.Wire.{jwk_to_value}
use oa_libs.Auth.Jwt.Samples.Tokens.{tokens}

abbrev key_id : Text → Text
key_id pem = key_id_from_pem marked_crypto pem

abbrev public_key : Jwk
public_key =
    jwk_from_rsa_public_components marked_crypto (codes "kid1") (1 ∷ 2 ∷ 3 ∷ []) (1 ∷ 0 ∷ 1 ∷ [])

abbrev small_key : Jwk
small_key = jwk_from_rsa_public_components marked_crypto (codes "kid1") (1 ∷ []) (1 ∷ [])

-- `matches!(…, Err(JwtError::Invalid(_)))`.
abbrev is_invalid : {A : Type 0} → Result A JwtError → Bool
is_invalid (ok a) = false
is_invalid (err expired) = false
is_invalid (err (invalid text)) = true
is_invalid (err (encoding text)) = false

-- key_id_is_stable_and_sha256_based.
KeyIdIsStableAndSha256Based : Type 0
KeyIdIsStableAndSha256Based =
    (key_id (codes "pem-content") ≡ key_id (codes "pem-content"))
    × (text_eq (key_id (codes "pem-content")) (key_id (codes "other-content")) ≡ false)
    × (is_empty (key_id (codes "pem-content")) ≡ false)
    × (contains (codes "=") (key_id (codes "pem-content")) ≡ false)

KeyIdIsStableAndSha256Based_holds : KeyIdIsStableAndSha256Based
unfolding KeyIdIsStableAndSha256Based text_eq key_id_from_pem contains oa_libs.Std.Text.strip_prefix
KeyIdIsStableAndSha256Based_holds = (refl, refl, refl, refl)

-- jwk_serializes_with_standard_field_names.
JwkSerializesWithStandardFieldNames : Type 0
JwkSerializesWithStandardFieldNames =
    (trees.get (jwk_to_value tree_serde public_key) (codes "kty")
      ≡ some (tree_serde.from_str (codes "RSA")))
    × (trees.get (jwk_to_value tree_serde public_key) (codes "use")
        ≡ some (tree_serde.from_str (codes "sig")))
    × (trees.get (jwk_to_value tree_serde public_key) (codes "alg")
        ≡ some (tree_serde.from_str (codes "RS256")))
    × (trees.get (jwk_to_value tree_serde public_key) (codes "n")
        ≡ some (tree_serde.from_str (marked_crypto.encode (1 ∷ 2 ∷ 3 ∷ []))))
    × (trees.get (jwk_to_value tree_serde public_key) (codes "e")
        ≡ some (tree_serde.from_str (marked_crypto.encode (1 ∷ 0 ∷ 1 ∷ []))))

JwkSerializesWithStandardFieldNames_holds : JwkSerializesWithStandardFieldNames
unfolding JwkSerializesWithStandardFieldNames oa_libs.Deps.Samples.tree_get jwk_to_value
    oa_libs.Deps.Samples.of_members jwk_from_rsa_public_components
JwkSerializesWithStandardFieldNames_holds = (refl, refl, refl, refl, refl)

-- rejects_non_rsa_and_missing_kid.
RejectsNonRsaAndMissingKid : Type 0
RejectsNonRsaAndMissingKid =
    (is_invalid (decoding_key_from_jwk tokens (record small_key { kty = codes "EC" })) ≡ true)
    × (is_err (
          decoding_key_from_jwks tokens (record { keys = small_key ∷ [] }) (some (codes "missing")))
        ≡ true)
    × (is_err (decoding_key_from_jwks tokens (record { keys = [] }) none) ≡ true)

RejectsNonRsaAndMissingKid_holds : RejectsNonRsaAndMissingKid
unfolding RejectsNonRsaAndMissingKid decoding_key_from_jwk text_eq decoding_key_from_jwks
    oa_libs.Auth.Jwks.select_key oa_libs.Auth.Jwks.find_kid jwk_from_rsa_public_components
RejectsNonRsaAndMissingKid_holds = (refl, refl, refl)
