-- ===== src/Storage/S3/Presigning.antt =====
-- For how long the presigned URLs of the S3 backend are valid.
use oa_libs.Base.{◌<◌, ◌⊎◌, ℕ, ◌≤◌, ◌≡◌, ◌≢◌, refl, Option, none, Result, ok, err, arith}
use oa_libs.Std.Text.{Text}
use oa_libs.Storage.Traits.{StorageError}
use oa_libs.Storage.S3.{
  StoreError, Method, put_method, get_method, ObjectStore, presigned, validity, week, s3_backend,
}

-- The number of seconds asked for, brought into the range from 1 to a week.
abbrev pub IsValidity : ℕ → ℕ → Type 0
IsValidity asked n =
    ((asked < 1) × (n ≡ 1))
    ⊎ ((1 ≤ asked) × (asked ≤ week) × (n ≡ asked))
    ⊎ ((week < asked) × (n ≡ week))

validity_lem : (asked : ℕ) → IsValidity asked (validity asked)
unfolding validity
validity_lem asked = ground arith

module _ {State : Type 0} (O : ObjectStore State) where
  -- The URL that the store signs for the method and the number of seconds, or its error; never none.
  abbrev pub IsSigned :
      Method → Text → ℕ → State → Result (Option Text) StorageError × State → Type 0
  IsSigned method key n s m =
      (m ≡ presigned (O.signed_url method (O.path_from key) n s)) × (m.0 ≢ ok none)

  presigned-some : {S : Type 0} (m : Result Text StoreError × S) → (presigned m).0 ≢ ok none
  unfolding presigned
  presigned-some (ok url, s) h = cc
  presigned-some (err e, s) h = cc

  -- Uploads and downloads are signed for their own method only, for the time that was asked for where
  -- it is from a second to a week, and otherwise for the nearer end of that range; the answer is a URL
  -- or an error, never none.
  pub presign_exact :
      (key : Text) (expires_seconds : ℕ) (s : State)
      → (n : ℕ) × IsValidity expires_seconds n
        × IsSigned put_method key n s ((s3_backend O).presign_put key expires_seconds s)
        × IsSigned get_method key n s ((s3_backend O).presign_get key expires_seconds s)
  unfolding s3_backend
  presign_exact key expires_seconds s = (
    validity expires_seconds,
    validity_lem expires_seconds,
    (refl, presigned-some (O.signed_url put_method (O.path_from key) (validity expires_seconds) s)),
    (refl, presigned-some (O.signed_url get_method (O.path_from key) (validity expires_seconds) s)),
  )
