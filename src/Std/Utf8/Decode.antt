-- ===== src/Std/Utf8/Decode.antt =====
-- Decoding of UTF-8: bytes that encode Unicode scalar values come back as they were.
use oa_libs.Base.{
  ℕ, zero, suc, ◌+◌, ◌-◌, ◌*◌, ◌/◌, ◌%◌, ◌≤◌, ◌<◌, ◌≡◌, ◌⊎◌, refl, ap, ◌∙◌, true, false, [], ◌∷◌,
  ◌++◌, All, ltb, if◌then◌else◌, arith,
}
use oa_libs.Std.Text.{Text}
use oa_libs.Std.Utf8.{Bytes, encode_utf8, as_bytes}

-- A Unicode scalar value, as every `char` is one.
abbrev pub IsScalar : ℕ → Type 0
IsScalar c = (c < 0xd800) ⊎ ((0xe000 ≤ c) × (c < 0x110000))

-- How many bytes follow a leading byte that is not ASCII, and the bits that it holds.
following : ℕ → ℕ
following b = if ltb b 224 then 1 else if ltb b 240 then 2 else 3

leading_bits : ℕ → ℕ
leading_bits b = if ltb b 224 then b - 192 else if ltb b 240 then b - 224 else b - 240

-- The state is the number of bytes that are still to follow, and the bits read.
decode_from : ℕ → ℕ → Bytes → Text
unfolding following leading_bits
decode_from n bits [] = []
decode_from zero bits (b ∷ rest) = elim (ltb b 0x80) as (λ _. Text) [
  | true ↦ b ∷ decode_from 0 0 rest
  | false ↦ decode_from (following b) (leading_bits b) rest
]
decode_from (suc zero) bits (b ∷ rest) = (bits * 64 + (b - 128)) ∷ decode_from 0 0 rest
decode_from (suc (suc n)) bits (b ∷ rest) = decode_from (suc n) (bits * 64 + (b - 128)) rest

unfoldable pub decode_utf8 : Bytes → Text
unfolding decode_from
decode_utf8 bytes = decode_from 0 0 bytes

lead_lem :
    (b : ℕ) (rest : Bytes)
    → 128 ≤ b
    → decode_from 0 0 (b ∷ rest) ≡ decode_from (following b) (leading_bits b) rest
unfolding decode_from
lead_lem b rest h = let big : ltb b 0x80 ≡ false = ground arith in rw (big, decode_from) refl

two_bytes :
    (c : ℕ) (rest : Bytes)
    → 0x80 ≤ c
    → c < 0x800
    → decode_from 0 0 ((192 + c / 64) ∷ (128 + c % 64) ∷ rest) ≡ c ∷ decode_from 0 0 rest
unfolding decode_from
two_bytes c rest h k =
    let one : following (192 + c / 64) ≡ 1 = unfold following in ground arith in
    let bits : leading_bits (192 + c / 64) ≡ c / 64 = unfold leading_bits in ground arith in
    let whole : c / 64 * 64 + (128 + c % 64 - 128) ≡ c = omega arith in
    lead_lem (192 + c / 64) ((128 + c % 64) ∷ rest) (omega arith)
    ∙ rw (one, bits) (ap (λ d. d ∷ decode_from 0 0 rest) whole)

three_bytes :
    (c : ℕ) (rest : Bytes)
    → 0x800 ≤ c
    → c < 0x10000
    → decode_from 0 0 ((224 + c / 4096) ∷ (128 + c / 64 % 64) ∷ (128 + c % 64) ∷ rest)
      ≡ c ∷ decode_from 0 0 rest
unfolding decode_from
three_bytes c rest h k =
    let two : following (224 + c / 4096) ≡ 2 = unfold following in ground arith in
    let bits : leading_bits (224 + c / 4096) ≡ c / 4096 = unfold leading_bits in ground arith in
    let whole : (c / 4096 * 64 + (128 + c / 64 % 64 - 128)) * 64 + (128 + c % 64 - 128) ≡ c =
      omega arith in
    lead_lem (224 + c / 4096) ((128 + c / 64 % 64) ∷ (128 + c % 64) ∷ rest) (omega arith)
    ∙ rw (two, bits) (ap (λ d. d ∷ decode_from 0 0 rest) whole)

four_bytes :
    (c : ℕ) (rest : Bytes)
    → 0x10000 ≤ c
    → c < 0x110000
    → decode_from 0 0
        ((240 + c / 262144) ∷ (128 + c / 4096 % 64) ∷ (128 + c / 64 % 64) ∷ (128 + c % 64) ∷ rest)
      ≡ c ∷ decode_from 0 0 rest
unfolding decode_from
four_bytes c rest h k =
    let three : following (240 + c / 262144) ≡ 3 = unfold following in ground arith in
    let bits : leading_bits (240 + c / 262144) ≡ c / 262144 = unfold leading_bits in ground arith in
    let whole : ((c / 262144 * 64 + (128 + c / 4096 % 64 - 128)) * 64 + (128 + c / 64 % 64 - 128))
            * 64
          + (128 + c % 64 - 128)
        ≡ c =
      omega arith in
    lead_lem (240 + c / 262144)
      ((128 + c / 4096 % 64) ∷ (128 + c / 64 % 64) ∷ (128 + c % 64) ∷ rest) (omega arith)
    ∙ rw (three, bits) (ap (λ d. d ∷ decode_from 0 0 rest) whole)

one_byte : (c : ℕ) (rest : Bytes) → c < 0x80 → decode_from 0 0 (c ∷ rest) ≡ c ∷ decode_from 0 0 rest
unfolding decode_from
one_byte c rest h = let small : ltb c 0x80 ≡ true = ground arith in rw (small, decode_from) refl

decode_one :
    (c : ℕ) (rest : Bytes)
    → IsScalar c
    → decode_from 0 0 (encode_utf8 c ++ rest) ≡ c ∷ decode_from 0 0 rest
unfolding encode_utf8
decode_one c rest h =
    ground (arith, one_byte c rest, two_bytes c rest, three_bytes c rest, four_bytes c rest)

pub decode_utf8-as_bytes : (s : Text) → All IsScalar s → decode_utf8 (as_bytes s) ≡ s
unfolding decode_utf8 as_bytes decode_from
decode_utf8-as_bytes [] h = refl
decode_utf8-as_bytes (c ∷ s) h =
    decode_one c (as_bytes s) h.0 ∙ ap (λ r. c ∷ r) (decode_utf8-as_bytes s h.1)
