-- ===== src/Storage/Traits.antt =====
-- crates/storage/src/traits.rs: the storage errors and the interface of a backend.
pub mod Contract
use oa_libs.Base.{ℕ, Bool, Option, none, some, Result, ok, err, Action}
use oa_libs.Std.Text.{Text}
use oa_libs.Std.Utf8.{Bytes}

-- enum StorageError.
pub data StorageError : Type 0 where
  not_found invalid_key backend : Text → StorageError
  invalid_signature : StorageError

-- trait StorageBackend, over the states of what it stores in.
pub record StorageBackend (State : Type 0) : Type 0 where
  pub put : Text → Bytes → Text → Action State (Unit {0}) StorageError
  pub get : Text → Action State Bytes StorageError
  pub delete : Text → Action State (Unit {0}) StorageError
  pub exists : Text → Action State Bool StorageError
  pub presign_put : Text → ℕ → Action State (Option Text) StorageError
  pub presign_get : Text → ℕ → Action State (Option Text) StorageError
  pub driver : Text

-- The default body of `presign_put` and `presign_get`.
unfoldable pub no_presign : {State : Type 0} → Text → ℕ → Action State (Option Text) StorageError
no_presign key expires_seconds s = (ok none, s)
