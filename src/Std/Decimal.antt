-- ===== src/Std/Decimal.antt =====
-- `Display` of the signed integers in decimal, as `format!("{n}")` prints them.
use oa_libs.Base.{
  ℕ, zero, suc, ◌+◌, ◌-◌, ◌*◌, ◌/◌, ◌%◌, ◌<◌, ◌≤◌, ◌≡◌, refl, sym, subst, ap, ◌∙◌, ◌≢◌,
  cons-injective, [], ◌∷◌, ◌++◌, ltb, if◌then◌else◌, arith, All, All-append,
}
use oa_libs.Std.Int.{ℤ, pos, negsuc}
use oa_libs.Std.Text.{Text, codes, Lacks}

-- The digits of `n`; the first argument bounds their number.
digits : ℕ → ℕ → Text
digits zero n = []
digits (suc fuel) n =
    let front = digits fuel (n / 10) in
    if ltb n 10 then (b'0' + n) ∷ [] else front ++ (b'0' + n % 10) ∷ []

-- A number has fewer digits than its value plus two.
unfoldable pub show_ℕ : ℕ → Text
unfolding digits
show_ℕ n = digits (n + 1) n

unfoldable pub show_ℤ : ℤ → Text
unfolding show_ℕ
show_ℤ (pos n) = show_ℕ n
show_ℤ (negsuc n) = b'-' ∷ show_ℕ (n + 1)

-- The number that digits spell behind `n`.
abbrev value : ℕ → Text → ℕ
value n [] = n
value n (c ∷ s) = value (n * 10 + (c - b'0')) s

value-append : (n : ℕ) (s : Text) (c : ℕ) → value n (s ++ c ∷ []) ≡ value n s * 10 + (c - b'0')
value-append n [] c = refl
value-append n (d ∷ s) c = value-append (n * 10 + (d - b'0')) s c

value-digits : (fuel n : ℕ) → n < fuel → value 0 (digits fuel n) ≡ n
unfolding digits
value-digits zero n h = absurd (omega arith)
value-digits (suc fuel) n h =
    ground
      (arith, value-digits fuel (n / 10), value-append 0 (digits fuel (n / 10)) (b'0' + n % 10))

-- The decimal print determines the number.
pub show_ℕ-injective : (n m : ℕ) → show_ℕ n ≡ show_ℕ m → n ≡ m
unfolding show_ℕ
show_ℕ-injective n m e =
    sym (value-digits (n + 1) n (omega arith))
    ∙ ap (value 0) e
    ∙ value-digits (m + 1) m (omega arith)

abbrev IsDigit : ℕ → Type 0
IsDigit c = (b'0' ≤ c) × (c ≤ b'9')

digits-IsDigit : (fuel n : ℕ) → All IsDigit (digits fuel n)
unfolding digits
digits-IsDigit zero n = tt
digits-IsDigit (suc fuel) n = ground (
  arith,
  All-append IsDigit (digits fuel (n / 10)) ((b'0' + n % 10) ∷ []) (digits-IsDigit fuel (n / 10)),
)

Lacks-of_digits : (c : ℕ) (s : Text) → ¬ IsDigit c → All IsDigit s → Lacks c s
Lacks-of_digits c [] n h = tt
Lacks-of_digits c (d ∷ s) n h = (λ e. n (subst IsDigit e h.0), Lacks-of_digits c s n h.1)

-- A decimal print holds nothing but digits and a sign: no other character occurs in it.
pub show_ℤ-Lacks : (c : ℕ) (n : ℤ) → c < b'-' → Lacks c (show_ℤ n)
unfolding show_ℤ show_ℕ
show_ℤ-Lacks c (pos n) h = Lacks-of_digits c _ (omega arith) (digits-IsDigit (n + 1) n)
show_ℤ-Lacks c (negsuc n) h =
    (omega arith, Lacks-of_digits c _ (omega arith) (digits-IsDigit (n + 1 + 1) (n + 1)))

sign_ne : (n : ℕ) (s : Text) → show_ℕ n ≢ b'-' ∷ s
unfolding show_ℕ
sign_ne n s e = absurd (omega (arith, (subst (All IsDigit) e (digits-IsDigit (n + 1) n)).0))

pub show_ℤ-injective : (n m : ℤ) → show_ℤ n ≡ show_ℤ m → n ≡ m
unfolding show_ℤ
show_ℤ-injective (pos n) (pos m) e = ap pos (show_ℕ-injective n m e)
show_ℤ-injective (pos n) (negsuc m) e = absurd (sign_ne n _ e)
show_ℤ-injective (negsuc n) (pos m) e = absurd (sign_ne m _ (sym e))
show_ℤ-injective (negsuc n) (negsuc m) e =
    let same = show_ℕ-injective (n + 1) (m + 1) (cons-injective e).1 in ap negsuc (omega arith)

show_tests :
    (show_ℤ (pos 1700000000) ≡ codes "1700000000")
    × (show_ℤ (negsuc 9) ≡ codes "-10")
    × (show_ℤ (pos 0) ≡ codes "0")
unfolding show_ℤ
show_tests = (refl, refl, refl)
