-- ===== src/Auth/Jwt.antt =====
-- crates/auth-sdk/src/jwt.rs: signing and verification of access tokens by jsonwebtoken.
pub mod Checks
pub mod Samples
mod UnitTests
use oa_libs.Base.{Bool, true, Option, some, List, [], ◌∷◌, Result, and_then, map_err}
use oa_libs.Std.Text.{Text, codes}
use oa_libs.Std.Utf8.{Bytes}
use oa_libs.Auth.Claims.{Claims}
use oa_libs.Auth.Claims.Wire.{claims_to_value, claims_from_value}
use oa_libs.Deps.{Json}
use oa_libs.Deps.Serde.{Serde}

-- enum JwtError.
pub data JwtError : Type 0 where
  expired : JwtError
  invalid encoding : Text → JwtError

-- The algorithms that the source names, and any other.
pub data Algorithm : Type 0 where
  rs256 other_algorithm : Algorithm

-- The header of a token, as the source fills it in.
pub record Header : Type 0 where
  pub alg : Algorithm
  pub kid : Option Text

-- The options of a verification that the source sets; all else keeps its default.
pub record Validation : Type 0 where
  pub algorithm : Algorithm
  pub issuer : List Text
  pub validate_exp : Bool

-- The kinds of errors of jsonwebtoken, as far as the source tells them apart.
pub data ErrorKind : Type 0 where
  expired_signature other_kind : ErrorKind

-- What the crate uses of jsonwebtoken. A payload is given and read as a JSON value: `encode` takes what
-- the `Serialize` of the claims writes, and `decode` takes what their `Deserialize` reads.
pub record JsonWebToken (Value : Type 0) : Type 1 where
  pub EncodingKey : Type 0
  pub DecodingKey : Type 0
  pub encoding_key_from_rsa_pem : Bytes → Result EncodingKey Text
  pub decoding_key_from_rsa_pem : Bytes → Result DecodingKey Text
  pub decoding_key_from_rsa_components : Text → Text → Result DecodingKey Text
  pub encode : Header → Value → EncodingKey → Result Text Text
  pub decode :
      {A : Type 0} → (Value → Option A) → Text → DecodingKey → Validation → Result A ErrorKind
  pub decode_header : Text → Result Header ErrorKind

-- The arms of the `match e.kind()`.
pub map_kind : ErrorKind → JwtError
map_kind expired_signature = expired
map_kind other_kind = invalid (codes "token verification failed")

-- The validation that `decode_access_token` sets up.
abbrev pub validation_for : Text → Validation
validation_for issuer = record { algorithm = rs256; issuer = issuer ∷ []; validate_exp = true }

module _ {J : Json} (S : Serde J) (W : JsonWebToken J.Value) where
  open W use {EncodingKey, DecodingKey, encoding_key_from_rsa_pem, encode, decode}

  -- encode_access_token.
  unfoldable pub encode_access_token : Claims J.Value → Bytes → Text → Result Text JwtError
  encode_access_token claims private_pem kid =
      and_then (map_err encoding (encoding_key_from_rsa_pem private_pem)) λ key.
        map_err encoding
          (encode (record { alg = rs256; kid = some kid }) (claims_to_value S claims) key)

  -- decode_access_token.
  unfoldable pub decode_access_token : Text → DecodingKey → Text → Result (Claims J.Value) JwtError
  unfolding map_kind
  decode_access_token token key issuer =
      map_err map_kind (decode (claims_from_value S) token key (validation_for issuer))
