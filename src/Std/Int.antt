-- ===== src/Std/Int.antt =====
-- Signed integers, and the range of `i64` and `i32` with the overflow behaviour of the two build
-- profiles.
use oa_libs.Base.{
  ℕ, suc, ◌+◌, ◌-◌, ◌^◌, ◌%◌, ◌≤◌, ◌<◌, ◌≡◌, Bool, true, Option, none, some, ltb, leb,
  if◌then◌else◌,
}

-- `negsuc n` is -(n + 1).
pub data ℤ : Type 0 where
  pos : ℕ → ℤ
  negsuc : ℕ → ℤ

abbrev pub pos_part : ℤ → ℕ
pos_part (pos n) = n
pos_part (negsuc n) = 0

abbrev pub neg_part : ℤ → ℕ
neg_part (pos n) = 0
neg_part (negsuc n) = suc n

-- a - b, as an integer.
abbrev pub sub_ℕ : ℕ → ℕ → ℤ
sub_ℕ a b = if leb b a then pos (a - b) else negsuc (b - a - 1)

infixl 65 ◌+ℤ◌ ◌-ℤ◌
infix 50 ◌≤ℤ◌ ◌<ℤ◌
unfoldable pub ◌+ℤ◌ : ℤ → ℤ → ℤ
a +ℤ b = sub_ℕ (pos_part a + pos_part b) (neg_part a + neg_part b)

unfoldable pub ◌-ℤ◌ : ℤ → ℤ → ℤ
a -ℤ b = sub_ℕ (pos_part a + neg_part b) (neg_part a + pos_part b)

abbrev pub ◌≤ℤ◌ : ℤ → ℤ → Type 0
a ≤ℤ b = pos_part a + neg_part b ≤ pos_part b + neg_part a

abbrev pub ◌<ℤ◌ : ℤ → ℤ → Type 0
a <ℤ b = pos_part a + neg_part b < pos_part b + neg_part a

abbrev pub ltb_ℤ : ℤ → ℤ → Bool
ltb_ℤ a b = ltb (pos_part a + neg_part b) (pos_part b + neg_part a)

abbrev pub leb_ℤ : ℤ → ℤ → Bool
leb_ℤ a b = leb (pos_part a + neg_part b) (pos_part b + neg_part a)

-- How the build treats an overflow: a debug build panics, and a release build of this workspace,
-- whose profile does not ask for overflow checks, wraps around.
pub data Profile : Type 0 where
  debug release : Profile

-- The integers of a signed type of w + 1 bits.
abbrev pub fits : ℕ → ℤ → Bool
fits w (pos n) = ltb n (2 ^ w)
fits w (negsuc n) = ltb n (2 ^ w)

-- The integer of that type with the same low bits.
unfoldable pub wrap : ℕ → ℤ → ℤ
wrap w (pos n) =
    let m = n % 2 ^ (w + 1) in if ltb m (2 ^ w) then pos m else negsuc (2 ^ (w + 1) - 1 - m)
wrap w (negsuc n) =
    let m = n % 2 ^ (w + 1) in if ltb m (2 ^ w) then negsuc m else pos (2 ^ (w + 1) - 1 - m)

-- The value of an operation whose exact result is `a`; `none` is a panic.
unfoldable pub settle : Profile → ℕ → ℤ → Option ℤ
unfolding wrap
settle p w a = if fits w a then some a else elim p [ debug ↦ none | release ↦ some (wrap w a) ]

-- `i64::abs`: only the least value overflows.
abbrev pub magnitude : ℤ → ℤ
magnitude (pos n) = pos n
magnitude (negsuc n) = pos (suc n)

pub settle_of_fits : (p : Profile) (w : ℕ) (a : ℤ) → fits w a ≡ true → settle p w a ≡ some a
unfolding settle
settle_of_fits p w a h = rw h
