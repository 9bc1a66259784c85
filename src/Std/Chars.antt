-- ===== src/Std/Chars.antt =====
-- Characters of Rust's `char` as code points, with the tests of the standard library that the
-- crates call.
use oa_libs.Base.{ℕ, ◌+◌, Bool, ◌&&◌, ◌||◌, ltb, leb, ◌==◌, if◌then◌else◌}

abbrev pub in_range : ℕ → ℕ → ℕ → Bool
in_range lo hi c = leb lo c && leb c hi

unfoldable pub is_ascii_digit : ℕ → Bool
is_ascii_digit c = in_range b'0' b'9' c

unfoldable pub is_ascii_lowercase : ℕ → Bool
is_ascii_lowercase c = in_range b'a' b'z' c

unfoldable pub is_ascii_uppercase : ℕ → Bool
is_ascii_uppercase c = in_range b'A' b'Z' c

unfoldable pub is_ascii_alphabetic : ℕ → Bool
unfolding is_ascii_lowercase is_ascii_uppercase
is_ascii_alphabetic c = is_ascii_lowercase c || is_ascii_uppercase c

unfoldable pub is_ascii_alphanumeric : ℕ → Bool
unfolding is_ascii_alphabetic is_ascii_digit
is_ascii_alphanumeric c = is_ascii_alphabetic c || is_ascii_digit c

-- `char::is_whitespace`: the code points with the property White_Space.
unfoldable pub is_whitespace : ℕ → Bool
is_whitespace c =
    in_range 9 13 c
    || c == 32
    || c == 0x85
    || c == 0xa0
    || c == 0x1680
    || in_range 0x2000 0x200a c
    || in_range 0x2028 0x2029 c
    || c == 0x202f
    || c == 0x205f
    || c == 0x3000

-- `char::to_ascii_lowercase`.
unfoldable pub to_ascii_lowercase : ℕ → ℕ
unfolding is_ascii_uppercase
to_ascii_lowercase c = if is_ascii_uppercase c then c + 32 else c

-- `char::len_utf8`.
unfoldable pub len_utf8 : ℕ → ℕ
len_utf8 c = if ltb c 0x80 then 1 else if ltb c 0x800 then 2 else if ltb c 0x10000 then 3 else 4
