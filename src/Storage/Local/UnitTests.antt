-- ===== src/Storage/Local/UnitTests.antt =====
-- The unit tests of crates/storage/src/local.rs, on the model, a file system in memory and a toy HMAC.
use oa_libs.Base.{◌≡◌, refl, Bool, true, false, none, Result, ok, err, is_ok, is_err, is_none}
use oa_libs.Deps.Samples.{marked_crypto, seconds}
use oa_libs.Std.Int.{pos}
use oa_libs.Std.Text.{Text, codes, contains, strip_prefix}
use oa_libs.Std.Utf8.{Bytes}
use oa_libs.Storage.Traits.{StorageError, not_found, invalid_key, StorageBackend}
use oa_libs.Storage.Key.{validate_key}
use oa_libs.Storage.Local.{
  LocalBackend, local_backend, sign_download, verify_download, download_url,
}
use oa_libs.Storage.Local.Examples.{Disk, memory}

abbrev local : LocalBackend
local = record { root = codes "/tmp/club-storage"; sign_secret = codes "secret" }

-- backend().
abbrev storage : StorageBackend Disk
storage = local_backend memory local

abbrev key : Text
key = codes "drive/space1/file.txt"

abbrev nothing : Disk
nothing = record { files = λ p. none; buffers = λ p. none }

abbrev stored : Disk
stored = (storage.put key (codes "hello") (codes "text/plain") nothing).1

abbrev deleted : Disk
deleted = (storage.delete key stored).1

-- `matches!(…, Err(StorageError::NotFound(_)))`.
abbrev is_not_found : {A : Type 0} → Result A StorageError → Bool
is_not_found (err (not_found about)) = true
is_not_found _ = false

-- `matches!(…, Err(StorageError::InvalidKey(_)))`.
abbrev is_invalid_key : {A : Type 0} → Result A StorageError → Bool
is_invalid_key (err (invalid_key about)) = true
is_invalid_key _ = false

-- The expiry, five minutes behind the time 1000.
abbrev expires : seconds.DateTime
expires = pos 1300

abbrev signature : Text
signature = sign_download marked_crypto seconds local (codes "a/b.txt") expires

abbrev verified : Text → Text → seconds.DateTime → Result (Unit {0}) StorageError
verified name signature now = verify_download marked_crypto seconds local name expires signature now

abbrev url : Text
url = download_url marked_crypto seconds local (codes "a/b.txt") expires

-- put_get_delete_roundtrip.
PutGetDeleteRoundtrip : Type 0
PutGetDeleteRoundtrip =
    (is_ok (storage.put key (codes "hello") (codes "text/plain") nothing).0 ≡ true)
    × ((storage.exists key stored).0 ≡ ok true)
    × ((storage.get key stored).0 ≡ ok (codes "hello"))
    × (is_ok (storage.delete key stored).0 ≡ true)
    × ((storage.exists key deleted).0 ≡ ok false)
    × (is_ok (storage.delete key deleted).0 ≡ true)
    × (is_not_found (storage.get key deleted).0 ≡ true)

PutGetDeleteRoundtrip_holds : PutGetDeleteRoundtrip
unfolding PutGetDeleteRoundtrip local_backend oa_libs.Storage.Local.write_file
    oa_libs.Storage.Local.fill_file oa_libs.Storage.Local.make_parent
    oa_libs.Storage.Local.read_answer oa_libs.Storage.Local.remove_answer
    oa_libs.Storage.Key.resolve_within validate_key oa_libs.Std.Text.split oa_libs.Std.Text.text_eq
    oa_libs.Std.Text.len oa_libs.Std.Path.join_path oa_libs.Std.Path.parent
    oa_libs.Storage.Samples.set oa_libs.Std.Chars.is_ascii_alphanumeric oa_libs.Std.Text.ends_with
PutGetDeleteRoundtrip_holds = (refl, refl, refl, refl, refl, refl, refl)

-- rejects_path_traversal_and_bad_keys.
RejectsPathTraversalAndBadKeys : Type 0
RejectsPathTraversalAndBadKeys =
    (is_err (validate_key (codes "")) ≡ true)
    × (is_err (validate_key (codes "/etc/passwd")) ≡ true)
    × (is_err (validate_key (codes "../secret")) ≡ true)
    × (is_err (validate_key (codes "a/../b")) ≡ true)
    × (is_err (validate_key (codes "a//b")) ≡ true)
    × (is_err (validate_key (codes "中文.txt")) ≡ true)
    × (is_err (validate_key (codes "a b")) ≡ true)
    × (is_ok (validate_key (codes "a.txt")) ≡ true)
    × (is_ok (validate_key (codes "drive/x/y.png")) ≡ true)
    × (is_ok (validate_key (codes ".hidden")) ≡ true)
    × (is_ok (validate_key (codes "a-b_c/d.1")) ≡ true)

RejectsPathTraversalAndBadKeys_holds : RejectsPathTraversalAndBadKeys
unfolding RejectsPathTraversalAndBadKeys validate_key oa_libs.Std.Text.len
    oa_libs.Std.Chars.is_ascii_alphanumeric oa_libs.Std.Text.split oa_libs.Std.Text.text_eq
RejectsPathTraversalAndBadKeys_holds =
    (refl, refl, refl, refl, refl, refl, refl, refl, refl, refl, refl)

-- traversal_key_is_rejected_at_runtime.
TraversalKeyIsRejectedAtRuntime : Type 0
TraversalKeyIsRejectedAtRuntime =
    is_invalid_key (storage.put (codes "../escape.txt") (codes "x") (codes "text/plain") nothing).0
    ≡ true

TraversalKeyIsRejectedAtRuntime_holds : TraversalKeyIsRejectedAtRuntime
unfolding TraversalKeyIsRejectedAtRuntime local_backend oa_libs.Storage.Local.write_file
    oa_libs.Storage.Local.fill_file oa_libs.Storage.Local.make_parent
    oa_libs.Storage.Local.read_answer oa_libs.Storage.Local.remove_answer
    oa_libs.Storage.Key.resolve_within validate_key oa_libs.Std.Text.split oa_libs.Std.Text.text_eq
    oa_libs.Std.Text.len oa_libs.Std.Path.join_path oa_libs.Std.Path.parent
    oa_libs.Storage.Samples.set oa_libs.Std.Chars.is_ascii_alphanumeric
TraversalKeyIsRejectedAtRuntime_holds = refl

-- download_signature_roundtrip_and_tamper.
DownloadSignatureRoundtripAndTamper : Type 0
DownloadSignatureRoundtripAndTamper =
    (is_ok (verified (codes "a/b.txt") signature (pos 1000)) ≡ true)
    × (is_err (verified (codes "a/c.txt") signature (pos 1000)) ≡ true)
    × (is_err (verified (codes "a/b.txt") signature (pos 1360)) ≡ true)
    × (is_err (verified (codes "a/b.txt") (codes "forged") (pos 1000)) ≡ true)

DownloadSignatureRoundtripAndTamper_holds : DownloadSignatureRoundtripAndTamper
unfolding DownloadSignatureRoundtripAndTamper verify_download oa_libs.Storage.Local.check_decoded
    sign_download oa_libs.Std.Text.text_eq oa_libs.Storage.Local.download_tag
    oa_libs.Std.Utf8.as_bytes oa_libs.Storage.Local.download_message oa_libs.Std.Decimal.show_ℤ
DownloadSignatureRoundtripAndTamper_holds = (refl, refl, refl, refl)

-- download_url_contains_expiry_and_signature.
DownloadUrlContainsExpiryAndSignature : Type 0
DownloadUrlContainsExpiryAndSignature =
    (is_none (strip_prefix (codes "a/b.txt?expires=") url) ≡ false)
    × (contains (codes "&signature=") url ≡ true)

DownloadUrlContainsExpiryAndSignature_holds : DownloadUrlContainsExpiryAndSignature
unfolding DownloadUrlContainsExpiryAndSignature strip_prefix download_url contains
    oa_libs.Std.Decimal.show_ℤ
DownloadUrlContainsExpiryAndSignature_holds = (refl, refl)

-- driver_name_is_local.
DriverNameIsLocal : Type 0
DriverNameIsLocal = storage.driver ≡ codes "local"

DriverNameIsLocal_holds : DriverNameIsLocal
unfolding DriverNameIsLocal local_backend oa_libs.Storage.Local.write_file
    oa_libs.Storage.Local.fill_file oa_libs.Storage.Local.make_parent
    oa_libs.Storage.Local.read_answer oa_libs.Storage.Local.remove_answer
    oa_libs.Storage.Key.resolve_within validate_key oa_libs.Std.Text.split oa_libs.Std.Text.text_eq
    oa_libs.Std.Text.len oa_libs.Std.Path.join_path oa_libs.Std.Path.parent
    oa_libs.Storage.Samples.set
DriverNameIsLocal_holds = refl
