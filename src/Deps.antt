-- ===== src/Deps.antt =====
-- The third-party crates behind records: the operations that the source calls, with the laws that the
-- documentation of those crates states. Every definition that calls one takes it as an argument.
pub mod Samples
pub mod Serde
use oa_libs.Base.{ℕ, Bool, true, Option, some, ◌≡◌, ◌↔◌, ◌<◌}
use oa_libs.Std.Int.{ℤ, ◌<ℤ◌}
use oa_libs.Std.Text.{Text}
use oa_libs.Std.Utf8.{Bytes}

-- What the crates use of serde_json: a type of JSON values, the member of an object by its key, and
-- the value as a Boolean or as a string where it is one.
pub record Json : Type 1 where
  pub Value : Type 0
  pub get : Value → Text → Option Value
  pub as_bool : Value → Option Bool
  pub as_str : Value → Option Text

-- What the crates use of sha2, hmac and base64: the digest of bytes, the tag of a message under a
-- key, the comparison of a tag with bytes, and the two encodings of bytes. The laws are those that
-- the documentation of these crates states.
pub record Crypto : Type 0 where
  pub sha256 : Bytes → Bytes
  pub hmac_sha256 : Bytes → Bytes → Bytes
  pub verify_slice : Bytes → Bytes → Bool
  pub encode : Bytes → Text
  pub decode : Text → Option Bytes
  pub verify_slice_iff : (tag raw : Bytes) → (verify_slice tag raw ≡ true) ↔ (tag ≡ raw)
  pub decode-encode : (b : Bytes) → decode (encode b) ≡ some b

-- What the crates use of chrono: instants, their order, the whole seconds since the epoch, and the
-- instant some seconds later.
pub record Chrono : Type 1 where
  pub DateTime : Type 0
  pub before : DateTime → DateTime → Bool
  pub timestamp : DateTime → ℤ
  pub add_seconds : DateTime → ℕ → DateTime
  pub add_seconds-later : (t : DateTime) (n : ℕ) → 0 < n → before t (add_seconds t n) ≡ true
  pub before-timestamp : (t u : DateTime) → timestamp t <ℤ timestamp u → before t u ≡ true
