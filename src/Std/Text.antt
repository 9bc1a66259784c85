-- ===== src/Std/Text.antt =====
-- Rust's `str` and `String` as lists of code points, with the functions that the crates call.
-- `len` counts the bytes of the UTF-8 encoding, as `str::len` does.
pub mod Laws
pub mod Split
use Prim.Native.Char.{code}
use Prim.Native.String.{String}
use oa_libs.Base.{
  ℕ, ◌+◌, Bool, true, false, ◌&&◌, ◌≢◌, Option, none, some, List, [], ◌∷◌, ◌++◌, map, reverse, ◌==◌,
  if◌then◌else◌, is_empty,
}
use oa_libs.Std.Chars.{is_whitespace, to_ascii_lowercase, len_utf8}

abbrev pub Text : Type 0
Text = List ℕ

-- The code points of a literal.
abbrev pub codes : String → Text
codes String.[] = []
codes (String.◌∷◌ c s) = code c ∷ codes s

-- `a == b` on strings.
unfoldable pub text_eq : Text → Text → Bool
text_eq [] [] = true
text_eq (x ∷ xs) (y ∷ ys) = x == y && text_eq xs ys
text_eq _ _ = false

-- `str::len`: the number of bytes.
unfoldable pub len : Text → ℕ
unfolding len_utf8
len [] = 0
len (c ∷ s) = len_utf8 c + len s

unfoldable pub drop_while : (ℕ → Bool) → Text → Text
drop_while p [] = []
drop_while p (c ∷ s) = let rest = drop_while p s in if p c then rest else c ∷ s

-- `str::trim`.
unfoldable pub trim : Text → Text
unfolding drop_while is_whitespace
trim s = reverse (drop_while is_whitespace (reverse (drop_while is_whitespace s)))

-- `str::trim_start_matches` with a character.
unfoldable pub trim_start_matches : ℕ → Text → Text
unfolding drop_while
trim_start_matches c s = drop_while (λ d. d == c) s

abbrev pub starts_with : ℕ → Text → Bool
starts_with c [] = false
starts_with c (d ∷ s) = d == c

-- `str::ends_with` with a character.
unfoldable pub ends_with : ℕ → Text → Bool
ends_with c s = starts_with c (reverse s)

abbrev cons_head : ℕ → List Text → List Text
cons_head c [] = (c ∷ []) ∷ []
cons_head c (p ∷ ps) = (c ∷ p) ∷ ps

-- `str::split` with a character: a text without the separator is one part.
unfoldable pub split : ℕ → Text → List Text
split sep [] = [] ∷ []
split sep (c ∷ s) = let rest = split sep s in if c == sep then [] ∷ rest else cons_head c rest

-- `str::split_once` with a character.
unfoldable pub split_once : ℕ → Text → Option (Text × Text)
split_once sep [] = none
split_once sep (c ∷ s) =
    let rest = elim (split_once sep s) as (λ _. Option (Text × Text)) [
      | none ↦ none
      | some p ↦ some (c ∷ p.0, p.1)
    ] in
    if c == sep then some ([], s) else rest

-- `str::strip_prefix`.
unfoldable pub strip_prefix : Text → Text → Option Text
strip_prefix [] s = some s
strip_prefix (c ∷ p) [] = none
strip_prefix (c ∷ p) (d ∷ s) = let rest = strip_prefix p s in if d == c then rest else none

-- `str::contains`.
unfoldable pub contains : Text → Text → Bool
contains part [] = is_empty part
contains part (c ∷ s) =
    let rest = contains part s in
    elim (strip_prefix part (c ∷ s)) as (λ _. Bool) [ none ↦ rest | some _ ↦ true ]

-- `str::eq_ignore_ascii_case`.
unfoldable pub eq_ignore_ascii_case : Text → Text → Bool
unfolding text_eq to_ascii_lowercase
eq_ignore_ascii_case a b = text_eq (map to_ascii_lowercase a) (map to_ascii_lowercase b)

-- Parts with a separator between them: the text that `split` takes apart.
unfoldable pub join : ℕ → List Text → Text
join sep [] = []
join sep (p ∷ []) = p
join sep (p ∷ q ∷ ps) = p ++ sep ∷ join sep (q ∷ ps)

-- No character of the text is `c`.
abbrev pub Lacks : ℕ → Text → Type 0
Lacks c [] = Unit
Lacks c (d ∷ s) = (d ≢ c) × Lacks c s
