-- ===== src/Storage/Local/Downloads.antt =====
-- Signed downloads: what a signature is bound to, and how a download URL is read.
use oa_libs.Base.{
  true, ℕ, ◌≡◌, ◌≢◌, ◌⊎◌, inl, inr, refl, sym, ap, ◌∙◌, false, Bool-cases, Option, none, some, [],
  ◌∷◌, ◌++◌, All, append_assoc, Result, ok, err, arith,
}
use mathlib.Core.Option.{some-injective}
use mathlib.Core.Bool.{false≢true}
use oa_libs.Deps.{Crypto, Chrono}
use oa_libs.Std.Text.{Text, codes, text_eq, split_once, Lacks}
use oa_libs.Std.Text.Laws.{text_eq_iff}
use oa_libs.Std.Text.Split.{last_sep-injective, split_once-append_sep}
use oa_libs.Std.Decimal.{show_ℤ, show_ℤ-injective, show_ℤ-Lacks}
use oa_libs.Std.Utf8.{Bytes}
use oa_libs.Storage.Traits.{StorageError, invalid_signature}
use oa_libs.Storage.Key.Grammar.{IsKey, IsKeyChar}
use oa_libs.Storage.Local.{
  LocalBackend, download_message, download_tag, sign_download, check_decoded, verify_download,
  download_url,
}

Lacks-append : (c : ℕ) (s t : Text) → Lacks c s → Lacks c t → Lacks c (s ++ t)
Lacks-append c [] t h k = k
Lacks-append c (d ∷ s) t h k = (h.0, Lacks-append c s t h.1 k)

module _ (C : Crypto) (T : Chrono) (b : LocalBackend) where
  open T use {DateTime, before, timestamp}

  check_decoded_cases :
      (tag : Bytes) (o : Option Bytes)
      → ((o ≡ some tag) × (check_decoded C T b tag o ≡ ok tt))
        ⊎ ((o ≢ some tag) × (check_decoded C T b tag o ≡ err invalid_signature))
  unfolding check_decoded
  check_decoded_cases tag none = inr ((λ e. cc), refl)
  check_decoded_cases tag (some raw) = ground (arith, C.verify_slice_iff tag raw)

  -- A download is let through exactly if it has not expired and the signature decodes to the tag of the
  -- key and the expiry; anything else gives the one error, which does not say what was wrong.
  verify_download_exact :
      (key : Text) (expires_at : DateTime) (signature : Text) (now : DateTime)
      → ((before expires_at now ≡ false)
          × (C.decode signature ≡ some (download_tag C T b key expires_at))
          × (verify_download C T b key expires_at signature now ≡ ok tt))
        ⊎ ((¬ (
              (before expires_at now ≡ false)
              × (C.decode signature ≡ some (download_tag C T b key expires_at))))
            × (verify_download C T b key expires_at signature now ≡ err invalid_signature))
  unfolding verify_download
  verify_download_exact key expires_at signature now =
      let tag = download_tag C T b key expires_at in
      elim (Bool-cases (before expires_at now)) [
        | inl late ↦ inr ((λ h. false≢true (sym h.0 ∙ late)), rw late refl)
        | inr early ↦ elim (check_decoded_cases tag (C.decode signature)) [
          | inl (same, accepted) ↦ inl (early, same, rw early accepted)
          | inr (other, refused) ↦ inr ((λ h. other h.1), rw early refused)
        ]
      ]

  -- A signed download is let through until it expires.
  pub verify_download-sign_download :
      (key : Text) (expires_at now : DateTime)
      → before expires_at now ≡ false
      → verify_download C T b key expires_at (sign_download C T b key expires_at) now ≡ ok tt
  unfolding sign_download
  verify_download-sign_download key expires_at now early =
      elim (verify_download_exact key expires_at (sign_download C T b key expires_at) now) [
        | inl (_, _, accepted) ↦ accepted
        | inr (wrong, _) ↦
            absurd (wrong (early, C.decode-encode (download_tag C T b key expires_at)))
      ]

  message-injective :
      (key key' : Text) (at at' : DateTime)
      → download_message C T b key at ≡ download_message C T b key' at'
      → (key ≡ key') × (timestamp at ≡ timestamp at')
  unfolding download_message
  message-injective key key' at at' e =
      let (keys, times) =
        last_sep-injective b'\n' key key' (show_ℤ (timestamp at)) (show_ℤ (timestamp at'))
          (show_ℤ-Lacks b'\n' (timestamp at) (omega arith))
          (show_ℤ-Lacks b'\n' (timestamp at') (omega arith)) e in
      (keys, show_ℤ-injective (timestamp at) (timestamp at') times)

  -- A signature that was made for one download and lets another through was made for the same key and
  -- the same second of expiry, or shows two different messages that HMAC does not tell apart.
  pub verify_download_is_signed :
      (key key' : Text) (at at' now : DateTime)
      → verify_download C T b key' at' (sign_download C T b key at) now ≡ ok tt
      → ((key ≡ key') × (timestamp at ≡ timestamp at'))
        ⊎ ((download_message C T b key at ≢ download_message C T b key' at')
            × (download_tag C T b key at ≡ download_tag C T b key' at'))
  unfolding sign_download
  verify_download_is_signed key key' at at' now h =
      elim (verify_download_exact key' at' (sign_download C T b key at) now) [
        | inr (wrong, refused) ↦ absurd (not_both h refused)
        | inl (_, same, _) ↦
            let tags =
              some-injective _ _ (sym (C.decode-encode (download_tag C T b key at)) ∙ same) in
            let m = download_message C T b key at in
            let m' = download_message C T b key' at' in
            elim (Bool-cases (text_eq m m')) [
              | inl equal ↦ inl (message-injective key key' at at' ((text_eq_iff m m').0 equal))
              | inr differ ↦ inr ((λ e. false≢true (sym differ ∙ (text_eq_iff m m').1 e)), tags)
            ]
      ]
    where
      not_both : {r : Result (Unit {0}) StorageError} → r ≡ ok tt → r ≡ err invalid_signature → ⊥
      not_both e f = cc

  key-Lacks : (s : Text) → All IsKeyChar s → Lacks b'?' s
  key-Lacks [] h = tt
  key-Lacks (c ∷ s) h = (omega (arith, h.0), key-Lacks s h.1)

  download_url-split_once :
      (key : Text) (expires_at : DateTime)
      → IsKey key
      → split_once b'?' (download_url C T b key expires_at)
        ≡ some (
          key,
          codes "expires="
              ++ show_ℤ (timestamp expires_at)
              ++ codes "&signature="
              ++ sign_download C T b key expires_at,
        )
  unfolding download_url
  download_url-split_once key expires_at valid =
      let query = codes "?expires=" in
      let time = show_ℤ (timestamp expires_at) in
      let sign = codes "&signature=" in
      let s = sign_download C T b key expires_at in
      ap (λ u. split_once b'?' (u ++ sign ++ s)) (append_assoc key query time)
      ∙ ap (λ u. split_once b'?' (u ++ s)) (append_assoc key (query ++ time) sign)
      ∙ ap (split_once b'?') (append_assoc key (query ++ time ++ sign) s)
      ∙ split_once-append_sep b'?' key (codes "expires=" ++ time ++ sign ++ s)
          (key-Lacks key valid.1)

  query_parts :
      (expires_at : DateTime) (s : Text)
      → split_once b'&'
          (codes "expires=" ++ show_ℤ (timestamp expires_at) ++ codes "&signature=" ++ s)
        ≡ some (codes "expires=" ++ show_ℤ (timestamp expires_at), codes "signature=" ++ s)
  query_parts expires_at s =
      let time = show_ℤ (timestamp expires_at) in
      ap (λ u. split_once b'&' (u ++ s))
        (append_assoc (codes "expires=") time (codes "&signature="))
      ∙ ap (split_once b'&') (append_assoc (codes "expires=" ++ time) (codes "&signature=") s)
      ∙ split_once-append_sep b'&' (codes "expires=" ++ time) (codes "signature=" ++ s) (
          Lacks-append b'&' (codes "expires=") time (omega arith)
            (show_ℤ-Lacks b'&' (timestamp expires_at) (omega arith)))

  -- The URL of a valid key brings its own proof: its first question mark separates the key from the
  -- query, and the first ampersand of the query the second of expiry from a signature, with which the
  -- download of that key is let through until that time, and refused afterwards.
  pub verify_download-download_url :
      (key : Text) (expires_at now : DateTime)
      → IsKey key
      → (query signature : Text) × (split_once b'?' (download_url C T b key expires_at)
          ≡ some (key, query))
        × (split_once b'&' query
            ≡ some (
              codes "expires=" ++ show_ℤ (timestamp expires_at),
              codes "signature=" ++ signature,
            ))
        × (((before expires_at now ≡ false)
              × (verify_download C T b key expires_at signature now ≡ ok tt))
            ⊎ ((before expires_at now ≡ true)
                × (verify_download C T b key expires_at signature now ≡ err invalid_signature)))
  unfolding verify_download
  verify_download-download_url key expires_at now valid = (
    codes "expires="
        ++ show_ℤ (timestamp expires_at)
        ++ codes "&signature="
        ++ sign_download C T b key expires_at,
    sign_download C T b key expires_at,
    download_url-split_once key expires_at valid,
    query_parts expires_at (sign_download C T b key expires_at),
    elim (Bool-cases (before expires_at now)) [
      | inl late ↦ inr (late, rw late refl)
      | inr early ↦ inl (early, verify_download-sign_download key expires_at now early)
    ],
  )
