-- ===== src/Auth/ServiceToken/Examples.antt =====
-- The theorems on service tokens with concrete secrets and times.
use oa_libs.Base.{ap, ◌≡◌, ◌⊎◌, refl, none, some, [], ◌∷◌, ok, ◌^◌, ◌-◌, arith}
use oa_libs.Auth.ServiceToken.Window.{IsNear}
use oa_libs.Auth.ServiceToken.Binding.{
  YieldsBytes, check_signature_iff, Collides, accepted_is_signed,
}
use oa_libs.Auth.ServiceToken.{
  body_digest_hex, candidate_message, mac_for, sign_service_token, check_signature,
  verify_service_token,
}
use oa_libs.Std.Int.{◌≤ℤ◌, pos, negsuc, ◌-ℤ◌, magnitude, debug, release}
use oa_libs.Deps.Samples.{toy_crypto}
use oa_libs.Std.Text.{Text, codes}
use oa_libs.Std.Utf8.{Bytes}
use oa_libs.Auth.ServiceToken.Verification.{
  Verdicts, verify_service_token-Verdicts, window_overflow,
}

abbrev service : Text
service = codes "mail"

abbrev secret : Bytes
secret = 1 ∷ 2 ∷ []

abbrev body : Bytes
body = codes "{}"

near : IsNear (pos 130) (pos 100)
unfolding ◌-ℤ◌
near = omega arith

within : magnitude (pos 130 -ℤ pos 100) ≤ℤ pos 60
unfolding ◌-ℤ◌
within = omega arith

digests : YieldsBytes toy_crypto
digests b = omega arith

same_message :
    candidate_message toy_crypto service (pos 100) body
    ≡ candidate_message toy_crypto service (pos 100) (codes "[]")
unfolding candidate_message body_digest_hex
same_message = refl

accepted :
    check_signature toy_crypto service secret
      (pos 100)
      (codes "[]")
      (sign_service_token toy_crypto service secret (pos 100) body)
    ≡ ok tt
unfolding check_signature sign_service_token
accepted =
    (check_signature_iff toy_crypto service secret (pos 100) (codes "[]") _).1
      (ap (λ m. some (mac_for toy_crypto secret m)) same_message)

verify_service_token-Verdicts_example :
    Verdicts
      (magnitude (pos 130 -ℤ pos 100))
      (pos 60)
      (mac_for toy_crypto secret (candidate_message toy_crypto service (pos 100) body))
      (some (codes "zz"))
      (verify_service_token toy_crypto debug service secret
        (pos 100)
        body
        (codes "zz")
        (pos 130)
        (pos 60))
verify_service_token-Verdicts_example =
    verify_service_token-Verdicts toy_crypto debug service secret (pos 100) body (codes "zz")
      (pos 130) (pos 60) near

window_overflow_example :
    (verify_service_token toy_crypto debug service secret
        (negsuc (2 ^ 63 - 1 - 5))
        body
        (codes "zz")
        (pos 5)
        (pos 60)
      ≡ none)
    × (verify_service_token toy_crypto release service secret
          (negsuc (2 ^ 63 - 1 - 5))
          body
          (codes "zz")
          (pos 5)
          (pos 60)
        ≡ some
            (check_signature toy_crypto service secret (negsuc (2 ^ 63 - 1 - 5)) body (codes "zz")))
window_overflow_example =
    window_overflow toy_crypto service secret body (codes "zz") 5 (pos 60) (omega arith)
      (omega arith)

accepted_is_signed_example :
    ((service ≡ service)
      × (pos 100 ≡ pos 100)
      × (toy_crypto.sha256 body ≡ toy_crypto.sha256 (codes "[]")))
    ⊎ Collides toy_crypto secret
        (candidate_message toy_crypto service (pos 100) body)
        (candidate_message toy_crypto service (pos 100) (codes "[]"))
accepted_is_signed_example =
    accepted_is_signed toy_crypto digests secret service service (pos 100) (pos 100) body
      (codes "[]") accepted
