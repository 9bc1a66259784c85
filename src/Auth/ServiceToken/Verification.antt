-- ===== src/Auth/ServiceToken/Verification.antt =====
-- What `verify_service_token` answers.
use oa_libs.Base.{
  if◌then◌else◌, ℕ, ◌-◌, ◌^◌, ◌<◌, ◌≡◌, ◌≢◌, ◌↔◌, false, Option, none, some, Result, ok, err, arith,
}
use oa_libs.Deps.{Crypto}
use oa_libs.Std.Text.{Text}
use oa_libs.Std.Utf8.{Bytes}
use oa_libs.Std.Int.{ℤ, pos, negsuc, ◌-ℤ◌, ◌≤ℤ◌, ◌<ℤ◌, ltb_ℤ, magnitude, Profile, debug, release}
use oa_libs.Auth.ServiceToken.{
  ServiceTokenError, invalid_signature, expired, malformed, candidate_message, mac_for,
  verify_decoded, check_signature, sign_service_token, verify_service_token,
}
use oa_libs.Auth.ServiceToken.Window.{IsI64, IsNear, age_exact, age_overflow}

abbrev pub Verdict : Type 0
Verdict = Option (Result (Unit {0}) ServiceTokenError)

-- The four answers, for a distance in time, a tag and the decoded signature.
abbrev pub Verdicts : ℤ → ℤ → Bytes → Option Bytes → Verdict → Type 0
Verdicts distance leeway tag decoded v =
    ((v ≡ some (err expired)) ↔ (leeway <ℤ distance))
    × ((v ≡ some (err malformed)) ↔ ((distance ≤ℤ leeway) × (decoded ≡ none)))
    × ((v ≡ some (err invalid_signature))
        ↔ ((distance ≤ℤ leeway) × (raw : Bytes) × (decoded ≡ some raw) × (tag ≢ raw)))
    × ((v ≡ some (ok tt)) ↔ ((distance ≤ℤ leeway) × (decoded ≡ some tag)))

module _ (C : Crypto) (distance leeway : ℤ) (tag : Bytes) where
  judge : Option Bytes → Verdict
  judge o = if ltb_ℤ leeway distance then some (err expired) else some (verify_decoded C tag o)

  judge-Verdicts : (o : Option Bytes) → Verdicts distance leeway tag o (judge o)
  unfolding judge verify_decoded
  judge-Verdicts none = ground arith
  judge-Verdicts (some raw) = ground (arith, C.verify_slice_iff tag raw)

-- For times less than 2 ^ 63 seconds apart, in either build profile, the answer is: expired exactly
-- if the times are further apart than the leeway; within the leeway, malformed exactly if the
-- signature is no base64, invalid exactly if it decodes to other bytes than the tag of the message,
-- and accepted exactly if it decodes to that tag. It never panics.
pub verify_service_token-Verdicts :
    (C : Crypto) (p : Profile) (service : Text) (secret : Bytes) (timestamp : ℤ) (body : Bytes)
    (signature : Text) (now leeway : ℤ)
    → IsNear now timestamp
    → Verdicts
        (magnitude (now -ℤ timestamp))
        leeway
        (mac_for C secret (candidate_message C service timestamp body))
        (C.decode signature)
        (verify_service_token C p service secret timestamp body signature now leeway)
unfolding verify_service_token check_signature
verify_service_token-Verdicts C p service secret timestamp body signature now leeway near =
    rw (age_exact p now timestamp near, verify_service_token)
      (unfold judge in
        judge-Verdicts C (magnitude (now -ℤ timestamp)) leeway
          (mac_for C secret (candidate_message C service timestamp body)) (C.decode signature))

-- A token that a service signs is accepted for the same call, in either profile, as long as the two
-- clocks are no further apart than the leeway.
verify-sign :
    (C : Crypto) (p : Profile) (service : Text) (secret : Bytes) (timestamp : ℤ) (body : Bytes)
    (now leeway : ℤ)
    → IsNear now timestamp
    → magnitude (now -ℤ timestamp) ≤ℤ leeway
    → verify_service_token C p service secret timestamp body
        (sign_service_token C service secret timestamp body)
        now
        leeway
      ≡ some (ok tt)
unfolding sign_service_token
verify-sign C p service secret timestamp body now leeway near within =
    let signature = sign_service_token C service secret timestamp body in
    (verify_service_token-Verdicts C p service secret timestamp body signature now leeway near).3.1
      (within, C.decode-encode (mac_for C secret (candidate_message C service timestamp body)))

least_is_early : (leeway : ℤ) → IsI64 leeway → ltb_ℤ leeway (negsuc (2 ^ 63 - 1)) ≡ false
least_is_early (pos n) k = ground arith
least_is_early (negsuc n) k = ground arith

-- The window fails open in a release build: at a timestamp 2 ^ 63 seconds before `now` the check of
-- the window passes for every leeway of i64, so that a signature over that timestamp decides alone.
-- A debug build panics there.
pub window_overflow :
    (C : Crypto) (service : Text) (secret : Bytes) (body : Bytes) (signature : Text) (n : ℕ)
    (leeway : ℤ)
    → n < 2 ^ 63
    → IsI64 leeway
    → (verify_service_token C debug service secret
          (negsuc (2 ^ 63 - 1 - n))
          body
          signature
          (pos n)
          leeway
        ≡ none)
      × (verify_service_token C release service secret
            (negsuc (2 ^ 63 - 1 - n))
            body
            signature
            (pos n)
            leeway
          ≡ some (check_signature C service secret (negsuc (2 ^ 63 - 1 - n)) body signature))
unfolding verify_service_token
window_overflow C service secret body signature n leeway h k =
    let (panic, least) = age_overflow n h in
    (
      rw (panic, verify_service_token),
      rw (least, verify_service_token) (rw (least_is_early leeway k)),
    )
