-- ===== src/Storage/Local.antt =====
-- crates/storage/src/local.rs: the backend on the local disk, and its signed downloads.
mod Files
mod Subject
mod Errors
mod Refinement
mod Downloads
mod Examples
mod UnitTests
use oa_libs.Base.{
  Bool, Option, none, some, ◌∷◌, ◌++◌, if◌then◌else◌, Result, ok, err, Action, continue,
}
use oa_libs.Deps.{Crypto, Chrono}
use oa_libs.Std.Text.{Text, codes}
use oa_libs.Std.Utf8.{Bytes, as_bytes}
use oa_libs.Std.Path.{parent}
use oa_libs.Std.Decimal.{show_ℤ}
use oa_libs.Storage.Traits.{
  StorageError, not_found, backend, invalid_signature, StorageBackend, no_presign,
}
use oa_libs.Storage.Key.{resolve_within}

-- `std::io::Error`, with its text: the kind that the source tells apart, and any other.
pub data IoError : Type 0 where
  no_such_file other_failure : Text → IoError

abbrev pub io_text : IoError → Text
io_text (no_such_file shown) = shown
io_text (other_failure shown) = shown

-- The calls of `tokio::fs` and `Path::exists` on the states of a file system.
pub record FileSystem (State : Type 0) : Type 1 where
  pub File : Type 0
  pub create_dir_all : Text → Action State (Unit {0}) IoError
  pub create : Text → Action State File IoError
  pub write_all : File → Bytes → Action State (Unit {0}) IoError
  pub flush : File → Action State (Unit {0}) IoError
  pub read : Text → Action State Bytes IoError
  pub remove_file : Text → Action State (Unit {0}) IoError
  pub exists : Text → State → Bool

-- struct LocalBackend.
pub record LocalBackend : Type 0 where
  pub root : Text
  pub sign_secret : Bytes

-- `.map_err(|err| StorageError::Backend(err.to_string()))`.
abbrev pub to_backend : {S A : Type 0} → Result A IoError × S → Result A StorageError × S
to_backend (ok a, s) = (ok a, s)
to_backend (err e, s) = (err (backend (io_text e)), s)

-- LocalBackend::resolve_path, whose body is that of `resolve_within` at the root.
abbrev pub resolve_path : LocalBackend → Text → Result Text StorageError
resolve_path b key = resolve_within b.root key

-- The `?` on `resolve_path`.
abbrev pub at_path :
    {S A : Type 0}
    → Result Text StorageError
    → (Text → Action S A StorageError)
    → Action S A StorageError
at_path (ok path) f s = f path s
at_path (err e) f s = (err e, s)

module _ {State : Type 0} (F : FileSystem State) where
  open F use {File, create_dir_all, create, write_all, flush, read, remove_file, exists}

  -- `if let Some(parent) = path.parent()`.
  pub make_parent : Option Text → Action State (Unit {0}) StorageError
  make_parent none s = (ok tt, s)
  make_parent (some dir) s = to_backend (create_dir_all dir s)

  -- `write_all` and `flush` on the new file.
  pub fill_file : Bytes → File → Action State (Unit {0}) StorageError
  fill_file body file s =
      continue (to_backend (write_all file body s)) λ _ s'. to_backend (flush file s')

  -- The body of `put` behind the check of the key.
  pub write_file : Bytes → Text → Action State (Unit {0}) StorageError
  write_file body path s =
      continue (make_parent (parent path) s)
        λ _ s₁. continue (to_backend (create path s₁)) (fill_file body)

  -- The `match` of `get`.
  pub read_answer : Text → Result Bytes IoError × State → Result Bytes StorageError × State
  read_answer key (ok bytes, s) = (ok bytes, s)
  read_answer key (err (no_such_file shown), s) = (err (not_found key), s)
  read_answer key (err (other_failure shown), s) = (err (backend shown), s)

  -- The `match` of `delete`.
  pub remove_answer : Result (Unit {0}) IoError × State → Result (Unit {0}) StorageError × State
  remove_answer (ok _, s) = (ok tt, s)
  remove_answer (err (no_such_file shown), s) = (ok tt, s)
  remove_answer (err (other_failure shown), s) = (err (backend shown), s)

  -- impl StorageBackend for LocalBackend.
  pub local_backend : LocalBackend → StorageBackend State
  unfolding write_file fill_file make_parent read_answer remove_answer
  local_backend b = record {
    put = λ key body kind. at_path (resolve_path b key) (write_file body);
    get = λ key. at_path (resolve_path b key) (λ path s. read_answer key (read path s));
    delete = λ key. at_path (resolve_path b key) (λ path s. remove_answer (remove_file path s));
    exists = λ key. at_path (resolve_path b key) (λ path s. (ok (exists path s), s));
    presign_put = no_presign;
    presign_get = no_presign;
    driver = codes "local";
  }

module _ (C : Crypto) (T : Chrono) (b : LocalBackend) where
  open T use {DateTime, before, timestamp}

  -- The message under a download signature.
  unfoldable pub download_message : Text → DateTime → Text
  download_message key expires_at = key ++ b'\n' ∷ show_ℤ (timestamp expires_at)

  unfoldable pub download_tag : Text → DateTime → Bytes
  download_tag key expires_at =
      C.hmac_sha256 b.sign_secret (as_bytes (download_message key expires_at))

  -- LocalBackend::sign_download; the codec of `C` is base64, URL-safe and without padding.
  unfoldable pub sign_download : Text → DateTime → Text
  sign_download key expires_at = C.encode (download_tag key expires_at)

  -- `mac.verify_slice(&raw)`, on the decoded signature where it decodes.
  pub check_decoded : Bytes → Option Bytes → Result (Unit {0}) StorageError
  check_decoded tag none = err invalid_signature
  check_decoded tag (some raw) = if C.verify_slice tag raw then ok tt else err invalid_signature

  -- LocalBackend::verify_download.
  unfoldable pub verify_download :
      Text → DateTime → Text → DateTime → Result (Unit {0}) StorageError
  verify_download key expires_at signature now =
      if before expires_at now
      then err invalid_signature
      else check_decoded (download_tag key expires_at) (C.decode signature)

  -- LocalBackend::download_url.
  unfoldable pub download_url : Text → DateTime → Text
  download_url key expires_at =
      key
      ++ codes "?expires="
      ++ show_ℤ (timestamp expires_at)
      ++ codes "&signature="
      ++ sign_download key expires_at
