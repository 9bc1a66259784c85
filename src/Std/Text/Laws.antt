-- ===== src/Std/Text/Laws.antt =====
-- Laws of the string functions: equality, prefixes, trimming and removal of whitespace.
use oa_libs.Base.{
  sym, ap, ◌∙◌, ℕ, ◌+◌, ◌≡◌, refl, ◌↔◌, ◌≢◌, Bool, true, false, some, [], ◌∷◌, ◌++◌, reverse,
  reverse-reverse, reverse-append, arith, any,
}
use oa_libs.Std.Text.{starts_with, ends_with, Text, text_eq, len, drop_while, trim, strip_prefix}
use oa_libs.Std.Chars.{is_whitespace}

pub text_eq_iff : (a b : Text) → (text_eq a b ≡ true) ↔ (a ≡ b)
unfolding text_eq
text_eq_iff [] [] = ground arith
text_eq_iff [] (y ∷ ys) = ground arith
text_eq_iff (x ∷ xs) [] = ground arith
text_eq_iff (x ∷ xs) (y ∷ ys) = ground (arith, text_eq_iff xs ys)

pub text_eq_refl : (a : Text) → text_eq a a ≡ true
text_eq_refl a = (text_eq_iff a a).1 refl

pub text_eq_ne : (a b : Text) → a ≢ b → text_eq a b ≡ false
text_eq_ne a b h = ground (arith, text_eq_iff a b)

pub len-append : (a b : Text) → len (a ++ b) ≡ len a + len b
unfolding len
len-append [] b = omega arith
len-append (c ∷ a) b = omega (arith, len-append a b)

-- `strip_prefix p s` succeeds exactly on the texts that begin with `p`.
pub strip_prefix_iff : (p s t : Text) → (strip_prefix p s ≡ some t) ↔ (s ≡ p ++ t)
unfolding strip_prefix
strip_prefix_iff [] s t = ground arith
strip_prefix_iff (c ∷ p) [] t = ground arith
strip_prefix_iff (c ∷ p) (d ∷ s) t = ground (arith, strip_prefix_iff p s t)

pub strip_prefix-append : (p t : Text) → strip_prefix p (p ++ t) ≡ some t
strip_prefix-append p t = (strip_prefix_iff p (p ++ t) t).1 refl

drop_while_of_all : (p : ℕ → Bool) (s : Text) → any p s ≡ false → drop_while p s ≡ s
unfolding drop_while
drop_while_of_all p [] h = refl
drop_while_of_all p (c ∷ s) h = ground arith

pub any-append :
    (p : ℕ → Bool) (a b : Text) → any p (a ++ b) ≡ false ↔ ((any p a ≡ false) × (any p b ≡ false))
any-append p [] b = ground arith
any-append p (c ∷ a) b = ground (arith, any-append p a b)

any-reverse : (p : ℕ → Bool) (s : Text) → any p s ≡ false → any p (reverse s) ≡ false
any-reverse p [] h = refl
any-reverse p (c ∷ s) h =
    rw (reverse-append (c ∷ []) s)
      ((any-append p (reverse s) (c ∷ [])).1 (any-reverse p s (ground arith), ground arith))

-- A text without whitespace is its own trimmed form.
pub trim_of_no_whitespace : (s : Text) → any is_whitespace s ≡ false → trim s ≡ s
unfolding trim
trim_of_no_whitespace s h =
    rw
      (
        drop_while_of_all is_whitespace s h,
        drop_while_of_all is_whitespace (reverse s) (any-reverse is_whitespace s h),
      )
      (reverse-reverse s)

last_form :
    (c : ℕ) (s t : Text)
    → reverse s ≡ t
    → starts_with c t ≡ true
    → (front : Text) × (s ≡ front ++ c ∷ [])
last_form c s [] e h = absurd (cc)
last_form c s (d ∷ t) e h =
    let same : d ≡ c = ground arith in
    (
      reverse t,
      sym (reverse-reverse s)
          ∙ ap reverse e
          ∙ reverse-append (d ∷ []) t
          ∙ ap (λ (x : ℕ). reverse t ++ x ∷ []) same,
    )

-- A text that ends with a character is some text with that character behind it.
pub ends_with_form :
    (c : ℕ) (s : Text) → ends_with c s ≡ true → (front : Text) × (s ≡ front ++ c ∷ [])
unfolding ends_with
ends_with_form c s h = last_form c s (reverse s) refl h
