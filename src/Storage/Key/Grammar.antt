-- ===== src/Storage/Key/Grammar.antt =====
-- Which keys are valid.
use oa_libs.Storage.Traits.{StorageError, invalid_key}
use oa_libs.Base.{
  ℕ, ◌≤◌, ◌≡◌, ◌≢◌, ◌↔◌, ◌⊎◌, refl, true, false, List, [], ◌∷◌, All, all, any, ok, err, arith,
}
use oa_libs.Std.Chars.{is_ascii_alphanumeric}
use oa_libs.Std.Text.{starts_with, Text, codes, len, split}
use oa_libs.Std.Text.Laws.{text_eq_iff}
use oa_libs.Storage.Key.{key_max_len, is_key_char, is_bad_segment, validate_key}

abbrev pub IsKeyChar : ℕ → Type 0
IsKeyChar c =
    ((b'a' ≤ c) × (c ≤ b'z'))
    ⊎ ((b'A' ≤ c) × (c ≤ b'Z'))
    ⊎ ((b'0' ≤ c) × (c ≤ b'9'))
    ⊎ ((c ≡ b'/') ⊎ (c ≡ b'.') ⊎ (c ≡ b'_') ⊎ (c ≡ b'-'))

-- A segment that neither is empty nor leads upwards.
abbrev pub IsSegment : Text → Type 0
IsSegment s = (s ≢ []) × (s ≢ codes "..")

chars_lem : (s : Text) → (all is_key_char s ≡ true) ↔ All IsKeyChar s
unfolding is_key_char is_ascii_alphanumeric
chars_lem [] = ground arith
chars_lem (c ∷ s) = ground (arith, chars_lem s)

segments_lem : (ps : List Text) → (any is_bad_segment ps ≡ false) ↔ All IsSegment ps
unfolding is_bad_segment
segments_lem [] = ground arith
segments_lem ([] ∷ ps) = ground (arith, segments_lem ps)
segments_lem ((c ∷ p) ∷ ps) = ground (arith, text_eq_iff (c ∷ p) (codes ".."), segments_lem ps)

-- A key is a path of segments between slashes, none of them empty or `..`.
abbrev pub IsKey : Text → Type 0
IsKey key = (len key ≤ key_max_len) × All IsKeyChar key × All IsSegment (split b'/' key)

leading_slash : (c : ℕ) (key : Text) → c ≡ b'/' → ¬ All IsSegment (split b'/' (c ∷ key))
unfolding split
leading_slash c key e h = ground arith

pub not-absolute : (key : Text) → All IsSegment (split b'/' key) → starts_with b'/' key ≡ false
not-absolute [] h = refl
not-absolute (c ∷ key) h = ground (arith, leading_slash c key)

empty_key : ¬ All IsSegment (split b'/' [])
unfolding split
empty_key h = h.0.0 refl

-- A key is accepted exactly if it has at most 512 bytes, all of them ASCII letters, digits or one of
-- `/._-`, and its parts between slashes are neither empty nor `..`; so an accepted key neither begins
-- nor ends with a slash. Any other key is refused with an error that names it.
pub validate_key_iff :
    (key : Text)
    → ((validate_key key ≡ ok tt) ↔ IsKey key)
      × ((validate_key key ≡ err (invalid_key key)) ↔ (¬ IsKey key))
unfolding validate_key
validate_key_iff [] = ground (arith, empty_key)
validate_key_iff (c ∷ key) =
    ground (arith, chars_lem (c ∷ key), segments_lem (split b'/' (c ∷ key)), leading_slash c key)

-- The only error of the check names the key.
pub validate_key-err :
    (key : Text) (e : StorageError) → validate_key key ≡ err e → e ≡ invalid_key key
unfolding validate_key
validate_key-err key e h = ground arith
