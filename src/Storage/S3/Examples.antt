-- ===== src/Storage/S3/Examples.antt =====
-- The S3 backend on an object store in memory.
use oa_libs.Base.{ℕ, ◌≡◌, refl, Option, none, some, Result, ok, err, arith}
use oa_libs.Storage.S3.{put_method, get_method, StoreError, no_such_object, ObjectStore, s3_backend}
use oa_libs.Storage.S3.Presigning.{IsValidity, IsSigned, presign_exact}
use oa_libs.Storage.S3.Behaviour.{StoreLaws}
use oa_libs.Std.Text.{Text, codes}
use oa_libs.Std.Utf8.{Bytes}
use oa_libs.Storage.Samples.{
  Slots, set, set_here, set_apart, or_missing, or_missing-ok, or_missing-err,
}
use oa_libs.Storage.Traits.Contract.{Honours}
use oa_libs.Storage.S3.Refinement.{s3_backend-Honours}
use oa_libs.Storage.S3.Subject.{subject}

abbrev gone : StoreError
gone = no_such_object (codes "404")

abbrev headed : Option Bytes → Result (Unit {0}) StoreError
headed none = err gone
headed (some b) = ok tt

abbrev memory : ObjectStore Slots
memory = record {
  ObjectPath = Text;
  GetResult = Bytes;
  path_from = λ key. key;
  put = λ p body s. (ok tt, set p (some body) s);
  get = λ p s. (or_missing gone (s p), s);
  bytes = λ result s. (ok result, s);
  delete = λ p s. (ok tt, set p none s);
  head = λ p s. (headed (s p), s);
  signed_url = λ method p seconds s. (ok p, s);
}

abbrev empty : Slots
empty p = none

headed-err : (o : Option Bytes) {e : StoreError} → headed o ≡ err e → o ≡ none
headed-err none h = refl
headed-err (some b) h = absurd (cc)

headed-ok : (o : Option Bytes) → headed o ≡ ok tt → (body : Bytes) × (o ≡ some body)
headed-ok none h = absurd (cc)
headed-ok (some b) h = (b, refl)

same_body : (a b : Bytes) → Path (Result Bytes StoreError) (ok a) (ok b) → b ≡ a
same_body a b h = ground arith

laws : StoreLaws memory
laws = record {
  held = λ s p. s p;
  body_of = λ b. b;
  put-ok = λ p body s h. set_here p (some body) s;
  put-apart = λ p q body s n. set_apart p q (some body) s n;
  get-ok = λ p result s h. or_missing-ok gone (s p) h;
  get-missing = λ p shown s h. or_missing-err gone (s p) h;
  get-keeps = λ p q s. refl;
  bytes-ok = λ result body s h. same_body result body h;
  bytes-found = λ result shown s h. cc;
  bytes-keeps = λ result q s. refl;
  delete-ok = λ p s h. set_here p none s;
  delete-missing = λ p shown s h. set_here p none s;
  delete-apart = λ p q s n. set_apart p q none s n;
  head-keeps = λ p q s. refl;
  signed_url-keeps = λ method p q n s. refl;
  head-found = λ p s h. headed-ok (s p) h;
  head-missing = λ p shown s h. headed-err (s p) h;
}

s3_backend-Honours_example : Honours (s3_backend memory) (subject memory laws)
s3_backend-Honours_example = s3_backend-Honours memory laws

presign_exact_example :
    (n : ℕ) × IsValidity 0 n
    × IsSigned memory put_method
        (codes "a")
        n
        empty
        ((s3_backend memory).presign_put (codes "a") 0 empty)
    × IsSigned memory get_method
        (codes "a")
        n
        empty
        ((s3_backend memory).presign_get (codes "a") 0 empty)
presign_exact_example = presign_exact memory (codes "a") 0 empty
