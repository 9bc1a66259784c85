-- ===== src/Auth/Jwks.antt =====
-- crates/auth-sdk/src/jwks.rs: public keys as JWK sets, and the key that verifies a token.
mod Selection
pub mod Wire
pub mod Issuing
mod Examples
mod UnitTests
use oa_libs.Base.{
  not, Option, none, some, List, [], ◌∷◌, ◌++◌, if◌then◌else◌, take, Result, err, and_then, map_err,
  ok_or,
}
use oa_libs.Deps.{Crypto}
use oa_libs.Std.Text.{Text, codes, text_eq}
use oa_libs.Std.Utf8.{Bytes}
use oa_libs.Auth.Jwt.{JwtError, invalid, JsonWebToken}

-- struct Jwk.
pub record Jwk : Type 0 where
  pub kty : Text
  pub kid : Text
  pub use_ : Text
  pub alg : Text
  pub n : Text
  pub e : Text

-- struct Jwks.
pub record Jwks : Type 0 where
  pub keys : List Jwk

-- key_id_from_pem; the codec of `C` is base64, URL-safe and without padding.
unfoldable pub key_id_from_pem : Crypto → Bytes → Text
key_id_from_pem C public_pem = C.encode (take 16 (C.sha256 public_pem))

-- jwk_from_rsa_public_components.
unfoldable pub jwk_from_rsa_public_components : Crypto → Text → Bytes → Bytes → Jwk
jwk_from_rsa_public_components C kid modulus exponent = record {
  kty = codes "RSA";
  kid = kid;
  use_ = codes "sig";
  alg = codes "RS256";
  n = C.encode modulus;
  e = C.encode exponent;
}

-- `keys.iter().find(|k| k.kid == kid)`.
pub find_kid : Text → List Jwk → Option Jwk
find_kid kid [] = none
find_kid kid (k ∷ keys) = if text_eq k.kid kid then some k else find_kid kid keys

-- `keys.first()`.
abbrev pub first_key : List Jwk → Option Jwk
first_key [] = none
first_key (k ∷ keys) = some k

-- The `match kid` of `decoding_key_from_jwks`.
unfoldable pub select_key : List Jwk → Option Text → Result Jwk JwtError
select_key keys (some kid) = ok_or (invalid (codes "kid not found: " ++ kid)) (find_kid kid keys)
select_key keys none = ok_or (invalid (codes "empty jwks")) (first_key keys)

module _ {Value : Type 0} (W : JsonWebToken Value) where
  open W use {DecodingKey, decoding_key_from_rsa_components}

  -- decoding_key_from_rsa_pem.
  unfoldable pub decoding_key_from_rsa_pem : Bytes → Result DecodingKey JwtError
  decoding_key_from_rsa_pem public_pem =
      map_err (λ e. invalid (codes "invalid pem: " ++ e)) (W.decoding_key_from_rsa_pem public_pem)

  -- decoding_key_from_jwk.
  unfoldable pub decoding_key_from_jwk : Jwk → Result DecodingKey JwtError
  decoding_key_from_jwk jwk =
      if not (text_eq jwk.kty (codes "RSA"))
      then err (invalid (codes "unsupported kty: " ++ jwk.kty))
      else map_err (λ e. invalid (codes "invalid rsa components: " ++ e))
          (decoding_key_from_rsa_components jwk.n jwk.e)

  -- decoding_key_from_jwks.
  unfoldable pub decoding_key_from_jwks : Jwks → Option Text → Result DecodingKey JwtError
  decoding_key_from_jwks jwks kid = and_then (select_key jwks.keys kid) decoding_key_from_jwk
