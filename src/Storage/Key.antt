-- ===== src/Storage/Key.antt =====
-- crates/storage/src/local.rs: which keys are valid, and the path that a key stands for.
pub mod Grammar
pub mod Confinement
pub mod Examples
use oa_libs.Base.{
  ℕ, Bool, true, false, ◌||◌, not, List, [], ◌∷◌, ltb, ◌==◌, if◌then◌else◌, is_empty, all, any,
  Result, ok, err, map_ok,
}
use oa_libs.Std.Chars.{is_ascii_alphanumeric}
use oa_libs.Std.Text.{Text, codes, text_eq, len, starts_with, split}
use oa_libs.Std.Path.{join_path}
use oa_libs.Storage.Traits.{StorageError, invalid_key}

abbrev pub key_max_len : ℕ
key_max_len = 512

is_key_char : ℕ → Bool
is_key_char c = is_ascii_alphanumeric c || c == b'/' || c == b'.' || c == b'_' || c == b'-'

-- The closure over one segment.
is_bad_segment : Text → Bool
is_bad_segment segment = text_eq segment (codes "..") || is_empty segment

-- validate_key.
unfoldable pub validate_key : Text → Result (Unit {0}) StorageError
unfolding is_key_char is_bad_segment
validate_key key =
    if is_empty key || starts_with b'/' key || ltb key_max_len (len key)
    then err (invalid_key key)
    else if not (all is_key_char key)
    then err (invalid_key key)
    else if any is_bad_segment (split b'/' key)
    then err (invalid_key key)
    else ok tt

-- resolve_within.
unfoldable pub resolve_within : Text → Text → Result Text StorageError
resolve_within root key = map_ok (λ _. join_path root key) (validate_key key)
