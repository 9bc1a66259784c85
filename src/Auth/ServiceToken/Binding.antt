-- ===== src/Auth/ServiceToken/Binding.antt =====
-- What a service token is bound to: the message that is signed determines the service, the timestamp
-- and the digest of the body.
use mathlib.Core.Option.{some-injective}
use mathlib.Core.Bool.{false≢true}
use oa_libs.Std.Text.{text_eq, Text, Lacks}
use oa_libs.Std.Text.Laws.{text_eq_iff}
use oa_libs.Base.{
  ℕ, ◌/◌, ◌%◌, ◌<◌, ◌≡◌, ◌≢◌, ◌⊎◌, ◌↔◌, inl, inr, refl, sym, ap₂, ◌∙◌, Option, none, some,
  Bool-cases, [], ◌∷◌, ◌++◌, All, ok, arith, cons-injective, append_assoc,
}
use oa_libs.Deps.{Crypto}
use oa_libs.Std.Text.Split.{last_sep-injective}
use oa_libs.Std.Utf8.{Bytes}
use oa_libs.Std.Int.{ℤ}
use oa_libs.Std.Decimal.{show_ℤ, show_ℤ-injective, show_ℤ-Lacks}
use oa_libs.Auth.ServiceToken.{
  hex_digit, hex, body_digest_hex, candidate_message, mac_for, verify_decoded, sign_service_token,
  check_signature,
}

abbrev pub IsByte : ℕ → Type 0
IsByte b = b < 256

hex_digit-injective : (a b : ℕ) → a < 16 → b < 16 → hex_digit a ≡ hex_digit b → a ≡ b
unfolding hex_digit
hex_digit-injective a b p q e = ground arith

-- The hexadecimal print of bytes determines them.
pub hex-injective : (a b : Bytes) → All IsByte a → All IsByte b → hex a ≡ hex b → a ≡ b
unfolding hex
hex-injective [] [] ha hb e = refl
hex-injective [] (y ∷ b) ha hb e = absurd (cc)
hex-injective (x ∷ a) [] ha hb e = absurd (cc)
hex-injective (x ∷ a) (y ∷ b) ha hb e =
    let (high, rest) = cons-injective e in
    let (low, tails) = cons-injective rest in
    let h = hex_digit-injective (x / 16) (y / 16) (omega arith) (omega arith) high in
    let l = hex_digit-injective (x % 16) (y % 16) (omega arith) (omega arith) low in
    let same : x ≡ y = omega arith in ap₂ ◌∷◌ same (hex-injective a b ha.1 hb.1 tails)

hex-Lacks : (c : ℕ) (a : Bytes) → c < b'0' → Lacks c (hex a)
unfolding hex hex_digit
hex-Lacks c [] h = tt
hex-Lacks c (x ∷ a) h = (ground arith, (ground arith, hex-Lacks c a h))

module _ (C : Crypto) where
  open C use {sha256, hmac_sha256, decode, encode}

  abbrev pub YieldsBytes : Type 0
  YieldsBytes = (b : Bytes) → All IsByte (sha256 b)

  -- The message that is signed determines what it was made from: the service, even one whose name
  -- holds line breaks, the timestamp, and the digest of the body.
  pub candidate_message-injective :
      YieldsBytes
      → (service service' : Text) (timestamp timestamp' : ℤ) (body body' : Bytes)
      → candidate_message C service timestamp body ≡ candidate_message C service' timestamp' body'
      → (service ≡ service') × (timestamp ≡ timestamp') × (sha256 body ≡ sha256 body')
  unfolding candidate_message body_digest_hex
  candidate_message-injective bytes service service' timestamp timestamp' body body' e =
      let (front, digests) =
        last_sep-injective b'\n' (service ++ b'\n' ∷ show_ℤ timestamp)
          (service' ++ b'\n' ∷ show_ℤ timestamp') (hex (sha256 body)) (hex (sha256 body'))
          (hex-Lacks b'\n' (sha256 body) (omega arith))
          (hex-Lacks b'\n' (sha256 body') (omega arith))
          (append_assoc service _ _ ∙ e ∙ sym (append_assoc service' _ _)) in
      let (services, times) =
        last_sep-injective b'\n' service service' (show_ℤ timestamp) (show_ℤ timestamp')
          (show_ℤ-Lacks b'\n' timestamp (omega arith)) (show_ℤ-Lacks b'\n' timestamp' (omega arith))
          front in
      (
        services,
        show_ℤ-injective timestamp timestamp' times,
        hex-injective (sha256 body) (sha256 body') (bytes body) (bytes body') digests,
      )

  -- Two different texts have one tag under the secret.
  abbrev pub Collides : Bytes → Text → Text → Type 0
  Collides secret a b = (a ≢ b) × (mac_for C secret a ≡ mac_for C secret b)

  verify_decoded_iff :
      (tag : Bytes) (o : Option Bytes) → (verify_decoded C tag o ≡ ok tt) ↔ (o ≡ some tag)
  unfolding verify_decoded
  verify_decoded_iff tag none = ground arith
  verify_decoded_iff tag (some raw) = ground (arith, C.verify_slice_iff tag raw)

  -- The signature check behind the window: it succeeds exactly on the texts that decode to the tag.
  pub check_signature_iff :
      (service : Text) (secret : Bytes) (timestamp : ℤ) (body : Bytes) (signature : Text)
      → (check_signature C service secret timestamp body signature ≡ ok tt)
        ↔ (decode signature ≡ some (mac_for C secret (candidate_message C service timestamp body)))
  unfolding check_signature
  check_signature_iff service secret timestamp body signature =
      verify_decoded_iff (mac_for C secret (candidate_message C service timestamp body))
        (decode signature)

  -- A signature made for one call and accepted for another under the same secret was made for the
  -- same service and timestamp and a body with the same digest, or shows two different messages that
  -- HMAC does not tell apart.
  pub accepted_is_signed :
      YieldsBytes
      → (secret : Bytes) (service service' : Text) (timestamp timestamp' : ℤ) (body body' : Bytes)
      → check_signature C service' secret timestamp' body'
          (sign_service_token C service secret timestamp body)
        ≡ ok tt
      → ((service ≡ service') × (timestamp ≡ timestamp') × (sha256 body ≡ sha256 body'))
        ⊎ Collides secret
            (candidate_message C service timestamp body)
            (candidate_message C service' timestamp' body')
  unfolding sign_service_token
  accepted_is_signed bytes secret service service' timestamp timestamp' body body' e =
      let m = candidate_message C service timestamp body in
      let m' = candidate_message C service' timestamp' body' in
      let found = (check_signature_iff service' secret timestamp' body' _).0 e in
      let tags : mac_for C secret m ≡ mac_for C secret m' =
        some-injective _ _ (sym (C.decode-encode (mac_for C secret m)) ∙ found) in
      elim (Bool-cases (text_eq m m')) [
        | inl same ↦ inl (
            candidate_message-injective bytes service service' timestamp timestamp' body body'
              ((text_eq_iff m m').0 same))
        | inr differ ↦ inr ((λ same. false≢true (sym differ ∙ (text_eq_iff m m').1 same)), tags)
      ]
