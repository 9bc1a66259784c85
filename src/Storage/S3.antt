-- ===== src/Storage/S3.antt =====
-- crates/storage/src/s3.rs: the backend on an S3-compatible object store.
mod Behaviour
mod Subject
mod Errors
mod Refinement
mod Presigning
pub mod Construction
mod Examples
use oa_libs.Base.{
  ℕ, ◌*◌, Bool, true, false, Option, none, some, min, max, Result, ok, err, Action, continue,
}
use oa_libs.Std.Text.{Text, codes}
use oa_libs.Std.Utf8.{Bytes}
use oa_libs.Storage.Traits.{StorageError, not_found, backend, StorageBackend}

-- `object_store::Error`, with its text: the kind that the source tells apart, and any other.
pub data StoreError : Type 0 where
  no_such_object other_error : Text → StoreError

-- The methods that the source asks signatures for.
pub data Method : Type 0 where
  put_method get_method : Method

-- What the crate uses of object_store, on the states of the store.
pub record ObjectStore (State : Type 0) : Type 1 where
  pub ObjectPath : Type 0
  pub GetResult : Type 0
  pub path_from : Text → ObjectPath
  pub put : ObjectPath → Bytes → Action State (Unit {0}) StoreError
  pub get : ObjectPath → Action State GetResult StoreError
  pub bytes : GetResult → Action State Bytes StoreError
  pub delete : ObjectPath → Action State (Unit {0}) StoreError
  pub head : ObjectPath → Action State (Unit {0}) StoreError
  pub signed_url : Method → ObjectPath → ℕ → Action State Text StoreError

-- map_error.
pub map_error : StoreError → StorageError
map_error (no_such_object shown) = not_found shown
map_error (other_error shown) = backend shown

-- `.map_err(map_error)` on a call.
pub mapped : {S A : Type 0} → Result A StoreError × S → Result A StorageError × S
unfolding map_error
mapped (ok a, s) = (ok a, s)
mapped (err e, s) = (err (map_error e), s)

-- The `match` of `delete`.
pub delete_answer :
    {S : Type 0} → Result (Unit {0}) StoreError × S → Result (Unit {0}) StorageError × S
unfolding map_error
delete_answer (ok _, s) = (ok tt, s)
delete_answer (err (no_such_object shown), s) = (ok tt, s)
delete_answer (err (other_error shown), s) = (err (map_error (other_error shown)), s)

-- The `match` of `exists`.
pub exists_answer : {S : Type 0} → Result (Unit {0}) StoreError × S → Result Bool StorageError × S
unfolding map_error
exists_answer (ok _, s) = (ok true, s)
exists_answer (err (no_such_object shown), s) = (ok false, s)
exists_answer (err (other_error shown), s) = (err (map_error (other_error shown)), s)

-- `Ok(Some(url.to_string()))`.
pub presigned : {S : Type 0} → Result Text StoreError × S → Result (Option Text) StorageError × S
unfolding map_error
presigned (ok url, s) = (ok (some url), s)
presigned (err e, s) = (err (map_error e), s)

abbrev pub week : ℕ
week = 7 * 24 * 3600

-- `expires_seconds.clamp(1, 7 * 24 * 3600)`.
pub validity : ℕ → ℕ
validity expires_seconds = min (max expires_seconds 1) week

module _ {State : Type 0} (O : ObjectStore State) where
  open O use {GetResult, path_from, put, get, bytes, delete, head, signed_url}

  -- impl StorageBackend for S3Backend.
  pub s3_backend : StorageBackend State
  unfolding mapped delete_answer exists_answer presigned validity
  s3_backend = record {
    put = λ key body kind s. mapped (put (path_from key) body s);
    get =
        λ key s. continue (mapped (get (path_from key) s)) (λ result s'. mapped (bytes result s'));
    delete = λ key s. delete_answer (delete (path_from key) s);
    exists = λ key s. exists_answer (head (path_from key) s);
    presign_put = λ key expires_seconds s.
        presigned (signed_url put_method (path_from key) (validity expires_seconds) s);
    presign_get = λ key expires_seconds s.
        presigned (signed_url get_method (path_from key) (validity expires_seconds) s);
    driver = codes "s3";
  }
