-- ===== src/Auth/ServiceToken.antt =====
-- crates/auth-sdk/src/service_token.rs: signed calls from one service to another.
mod Binding
mod Window
pub mod Verification
mod Examples
mod UnitTests
use oa_libs.Base.{
  ℕ, ◌/◌, ◌%◌, ◌+◌, ◌-◌, Option, none, some, [], ◌∷◌, ◌++◌, if◌then◌else◌, ltb, Result, ok, err,
}
use oa_libs.Deps.{Crypto}
use oa_libs.Std.Text.{Text}
use oa_libs.Std.Utf8.{Bytes, as_bytes}
use oa_libs.Std.Decimal.{show_ℤ}
use oa_libs.Std.Int.{ℤ, pos, ◌-ℤ◌, ltb_ℤ, magnitude, Profile, settle}

abbrev pub default_leeway_seconds : ℤ
default_leeway_seconds = pos 60

-- enum ServiceTokenError.
pub data ServiceTokenError : Type 0 where
  invalid_signature expired malformed : ServiceTokenError

-- One hexadecimal digit, in lower case.
hex_digit : ℕ → ℕ
hex_digit n = if ltb n 10 then b'0' + n else b'a' + (n - 10)

-- The loop of `body_digest_hex`: `{byte:02x}` for each byte.
pub hex : Bytes → Text
unfolding hex_digit
hex [] = []
hex (b ∷ bytes) = hex_digit (b / 16) ∷ hex_digit (b % 16) ∷ hex bytes

module _ (C : Crypto) where
  open C use {sha256, hmac_sha256, verify_slice, encode, decode}

  -- body_digest_hex.
  pub body_digest_hex : Bytes → Text
  body_digest_hex body = hex (sha256 body)

  -- candidate_message.
  pub candidate_message : Text → ℤ → Bytes → Text
  candidate_message service timestamp body =
      service ++ b'\n' ∷ (show_ℤ timestamp ++ b'\n' ∷ body_digest_hex body)

  -- mac_for, with the tag that the calculator yields.
  unfoldable pub mac_for : Bytes → Text → Bytes
  mac_for secret message = hmac_sha256 secret (as_bytes message)

  -- sign_service_token.
  pub sign_service_token : Text → Bytes → ℤ → Bytes → Text
  sign_service_token service secret timestamp body =
      encode (mac_for secret (candidate_message service timestamp body))

  -- `mac.verify_slice(&raw)`, on the decoded signature where it decodes.
  pub verify_decoded : Bytes → Option Bytes → Result (Unit {0}) ServiceTokenError
  verify_decoded tag none = err malformed
  verify_decoded tag (some raw) = if verify_slice tag raw then ok tt else err invalid_signature

  -- The part of `verify_service_token` behind the time window.
  pub check_signature : Text → Bytes → ℤ → Bytes → Text → Result (Unit {0}) ServiceTokenError
  check_signature service secret timestamp body signature =
      verify_decoded (mac_for secret (candidate_message service timestamp body)) (decode signature)

-- `.abs()` in i64 on a difference that did not panic.
pub settled_magnitude : Profile → Option ℤ → Option ℤ
settled_magnitude p none = none
settled_magnitude p (some d) = settle p 63 (magnitude d)

-- `(now - timestamp).abs()` in i64; `none` is a panic.
pub age : Profile → ℤ → ℤ → Option ℤ
age p now timestamp = settled_magnitude p (settle p 63 (now -ℤ timestamp))

-- verify_service_token; `none` is a panic.
pub verify_service_token :
    Crypto
    → Profile
    → Text
    → Bytes
    → ℤ
    → Bytes
    → Text
    → ℤ
    → ℤ
    → Option (Result (Unit {0}) ServiceTokenError)
verify_service_token C p service secret timestamp body signature now leeway_seconds =
    elim (age p now timestamp) as (λ _. Option (Result (Unit {0}) ServiceTokenError)) [
      | none ↦ none
      | some a ↦
          if ltb_ℤ leeway_seconds a
          then some (err expired)
          else some (check_signature C service secret timestamp body signature)
    ]
