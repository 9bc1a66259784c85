-- ===== src/Std/Utf8.antt =====
-- The UTF-8 encoding of a text (`str::as_bytes`): different texts have different bytes.
pub mod Decode
use oa_libs.Base.{
  ℕ, ◌+◌, ◌/◌, ◌%◌, ◌≡◌, refl, sym, ap₂, List, [], ◌∷◌, ◌++◌, ltb, if◌then◌else◌, arith, length,
}
use oa_libs.Std.Chars.{len_utf8}
use oa_libs.Std.Text.{Text, len}

-- A byte is a number below 256.
abbrev pub Bytes : Type 0
Bytes = List ℕ

unfoldable pub encode_utf8 : ℕ → Bytes
encode_utf8 c =
    if ltb c 0x80
    then c ∷ []
    else if ltb c 0x800
    then (192 + c / 64) ∷ (128 + c % 64) ∷ []
    else if ltb c 0x10000
    then (224 + c / 4096) ∷ (128 + c / 64 % 64) ∷ (128 + c % 64) ∷ []
    else (240 + c / 262144) ∷ (128 + c / 4096 % 64) ∷ (128 + c / 64 % 64) ∷ (128 + c % 64) ∷ []

unfoldable pub as_bytes : Text → Bytes
unfolding encode_utf8
as_bytes [] = []
as_bytes (c ∷ s) = encode_utf8 c ++ as_bytes s

encode_utf8-cancel :
    (c d : ℕ) (s t : Bytes) → encode_utf8 c ++ s ≡ encode_utf8 d ++ t → (c ≡ d) × (s ≡ t)
unfolding encode_utf8
encode_utf8-cancel c d s t e = ground arith

encode_utf8-ne-nil : (c : ℕ) (s : Bytes) → ¬ (encode_utf8 c ++ s ≡ [])
unfolding encode_utf8
encode_utf8-ne-nil c s e = ground arith

pub as_bytes-injective : (s t : Text) → as_bytes s ≡ as_bytes t → s ≡ t
unfolding as_bytes
as_bytes-injective [] [] e = refl
as_bytes-injective [] (d ∷ t) e = absurd (encode_utf8-ne-nil d (as_bytes t) (sym e))
as_bytes-injective (c ∷ s) [] e = absurd (encode_utf8-ne-nil c (as_bytes s) e)
as_bytes-injective (c ∷ s) (d ∷ t) e =
    let (same, rest) = encode_utf8-cancel c d (as_bytes s) (as_bytes t) e in
    ap₂ ◌∷◌ same (as_bytes-injective s t rest)

-- `str::len` is the number of bytes of the encoding.
pub length-as_bytes : (s : Text) → length (as_bytes s) ≡ len s
unfolding as_bytes len len_utf8
length-as_bytes [] = refl
length-as_bytes (c ∷ s) = ground (arith, length-as_bytes s)
