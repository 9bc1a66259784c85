-- ===== src/Auth/ServiceToken/UnitTests.antt =====
-- The unit tests of crates/auth-sdk/src/service_token.rs, on the model and a toy HMAC.
use oa_libs.Base.{ℕ, ◌+◌, ◌-◌, ◌≡◌, refl, Option, some, Result, ok, err}
use oa_libs.Deps.Samples.{marked_crypto}
use oa_libs.Std.Int.{ℤ, pos, debug}
use oa_libs.Std.Text.{Text, codes}
use oa_libs.Std.Utf8.{Bytes}
use oa_libs.Auth.ServiceToken.{
  ServiceTokenError, invalid_signature, expired, malformed, sign_service_token,
  verify_service_token,
}

abbrev secret : Bytes
secret = codes "super-secret"

abbrev now : ℕ
now = 1700000000

abbrev signed : Text
signed = sign_service_token marked_crypto (codes "notify") secret (pos now) (codes "{}")

-- The answer to a call by a service with a secret, a body and a signature, at a time.
abbrev answer : Text → Bytes → Bytes → Text → ℕ → Option (Result (Unit {0}) ServiceTokenError)
answer service key body signature at =
    verify_service_token marked_crypto debug service key (pos now) body signature (pos at) (pos 60)

-- sign_and_verify_roundtrip.
SignAndVerifyRoundtrip : Type 0
SignAndVerifyRoundtrip =
    (answer (codes "notify") secret (codes "{}") signed (now) ≡ some (ok tt))
    × (answer (codes "notify") secret (codes "{}") signed (now + 30) ≡ some (ok tt))
    × (answer (codes "notify") secret (codes "{}") signed (now - 30) ≡ some (ok tt))

SignAndVerifyRoundtrip_holds : SignAndVerifyRoundtrip
unfolding SignAndVerifyRoundtrip verify_service_token oa_libs.Auth.ServiceToken.age
    oa_libs.Auth.ServiceToken.settled_magnitude oa_libs.Std.Int.settle oa_libs.Std.Int.◌-ℤ◌
    oa_libs.Auth.ServiceToken.check_signature oa_libs.Auth.ServiceToken.verify_decoded
    sign_service_token oa_libs.Std.Text.text_eq oa_libs.Auth.ServiceToken.mac_for
    oa_libs.Std.Utf8.as_bytes oa_libs.Auth.ServiceToken.candidate_message oa_libs.Std.Decimal.show_ℤ
    oa_libs.Auth.ServiceToken.body_digest_hex oa_libs.Auth.ServiceToken.hex
SignAndVerifyRoundtrip_holds = (refl, refl, refl)

-- rejects_tampered_body_or_service.
RejectsTamperedBodyOrService : Type 0
RejectsTamperedBodyOrService =
    (answer (codes "notify") secret (codes "{\"x\":1}") signed now ≡ some (err invalid_signature))
    × (answer (codes "im") secret (codes "{}") signed now ≡ some (err invalid_signature))

RejectsTamperedBodyOrService_holds : RejectsTamperedBodyOrService
unfolding RejectsTamperedBodyOrService verify_service_token oa_libs.Auth.ServiceToken.age
    oa_libs.Auth.ServiceToken.settled_magnitude oa_libs.Std.Int.settle oa_libs.Std.Int.◌-ℤ◌
    oa_libs.Auth.ServiceToken.check_signature oa_libs.Auth.ServiceToken.verify_decoded
    sign_service_token oa_libs.Std.Text.text_eq oa_libs.Auth.ServiceToken.mac_for
    oa_libs.Std.Utf8.as_bytes oa_libs.Auth.ServiceToken.candidate_message oa_libs.Std.Decimal.show_ℤ
    oa_libs.Auth.ServiceToken.body_digest_hex oa_libs.Auth.ServiceToken.hex
RejectsTamperedBodyOrService_holds = (refl, refl)

-- rejects_wrong_secret.
RejectsWrongSecret : Type 0
RejectsWrongSecret =
    answer (codes "notify") (codes "other") (codes "{}") signed now ≡ some (err invalid_signature)

RejectsWrongSecret_holds : RejectsWrongSecret
unfolding RejectsWrongSecret verify_service_token oa_libs.Auth.ServiceToken.age
    oa_libs.Auth.ServiceToken.settled_magnitude oa_libs.Std.Int.settle oa_libs.Std.Int.◌-ℤ◌
    oa_libs.Auth.ServiceToken.check_signature oa_libs.Auth.ServiceToken.verify_decoded
    sign_service_token oa_libs.Std.Text.text_eq oa_libs.Auth.ServiceToken.mac_for
RejectsWrongSecret_holds = refl

-- rejects_expired_timestamp.
RejectsExpiredTimestamp : Type 0
RejectsExpiredTimestamp =
    answer (codes "notify") secret (codes "{}") signed (now + 61) ≡ some (err expired)

RejectsExpiredTimestamp_holds : RejectsExpiredTimestamp
unfolding RejectsExpiredTimestamp verify_service_token oa_libs.Auth.ServiceToken.age
    oa_libs.Auth.ServiceToken.settled_magnitude oa_libs.Std.Int.settle oa_libs.Std.Int.◌-ℤ◌
RejectsExpiredTimestamp_holds = refl

-- rejects_malformed_signature.
RejectsMalformedSignature : Type 0
RejectsMalformedSignature =
    answer (codes "notify") secret (codes "{}") (codes "not-base64!!") now ≡ some (err malformed)

RejectsMalformedSignature_holds : RejectsMalformedSignature
unfolding RejectsMalformedSignature verify_service_token oa_libs.Auth.ServiceToken.age
    oa_libs.Auth.ServiceToken.settled_magnitude oa_libs.Std.Int.settle oa_libs.Std.Int.◌-ℤ◌
    oa_libs.Auth.ServiceToken.check_signature oa_libs.Auth.ServiceToken.verify_decoded
RejectsMalformedSignature_holds = refl
