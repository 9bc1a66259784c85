-- ===== src/Common/Validate/Labels.antt =====
-- The domain of an e-mail address: labels with dots between them.
use oa_libs.Base.{
  ℕ, ◌≤◌, ◌≡◌, ◌≢◌, ◌↔◌, ◌⊎◌, List, [], ◌∷◌, ◌++◌, true, false, ◌||◌, ◌==◌, refl, sym, ap, subst,
  All, All-map, all, any, arith, reverse, reverse-reverse, ◌∙◌, reverse-append,
}
use oa_libs.Std.Chars.{is_whitespace, is_ascii_alphanumeric}
use oa_libs.Std.Text.{Text, join, Lacks, starts_with, ends_with}
use oa_libs.Std.Text.Laws.{any-append}
use oa_libs.Std.Text.Split.{Lacks-append}
use oa_libs.Common.Validate.{is_label, contains_char}

abbrev pub IsLabelChar : ℕ → Type 0
IsLabelChar c =
    ((b'a' ≤ c) × (c ≤ b'z')) ⊎ ((b'A' ≤ c) × (c ≤ b'Z')) ⊎ ((b'0' ≤ c) × (c ≤ b'9')) ⊎ (c ≡ b'-')

-- A label is not empty and holds ASCII letters, digits and hyphens.
abbrev pub IsLabel : Text → Type 0
IsLabel s = (s ≢ []) × All IsLabelChar s

label_chars_lem :
    (s : Text) → (all (λ c. is_ascii_alphanumeric c || c == b'-') s ≡ true) ↔ All IsLabelChar s
unfolding is_ascii_alphanumeric
label_chars_lem [] = ground arith
label_chars_lem (c ∷ s) = ground (arith, label_chars_lem s)

is_label_iff : (s : Text) → (is_label s ≡ true) ↔ IsLabel s
unfolding is_label
is_label_iff [] = ground arith
is_label_iff (c ∷ s) = ground (arith, label_chars_lem (c ∷ s))

pub labels_iff : (ps : List Text) → (all is_label ps ≡ true) ↔ All IsLabel ps
labels_iff [] = ground arith
labels_iff (p ∷ ps) = ground (arith, is_label_iff p, labels_iff ps)

-- A label holds no character that separates or ends anything.
Lacks-of_label : (c : ℕ) (s : Text) → ¬ IsLabelChar c → All IsLabelChar s → Lacks c s
Lacks-of_label c [] n h = tt
Lacks-of_label c (d ∷ s) n h = (λ e. n (subst IsLabelChar e h.0), Lacks-of_label c s n h.1)

no_whitespace_of_label : (s : Text) → All IsLabelChar s → any is_whitespace s ≡ false
unfolding is_whitespace
no_whitespace_of_label [] h = refl
no_whitespace_of_label (c ∷ s) h = ground (arith, no_whitespace_of_label s)

pub labels-Lacks : (c : ℕ) (ps : List Text) → ¬ IsLabelChar c → All IsLabel ps → All (Lacks c) ps
labels-Lacks c ps n = All-map (λ s h. Lacks-of_label c s n h.1) ps

pub join-Lacks :
    (c : ℕ) (ps : List Text) → ¬ IsLabelChar c → c ≢ b'.' → All IsLabel ps → Lacks c (join b'.' ps)
unfolding join
join-Lacks c [] n m h = tt
join-Lacks c (p ∷ []) n m h = Lacks-of_label c p n h.0.1
join-Lacks c (p ∷ q ∷ ps) n m h =
    Lacks-append c p _ (Lacks-of_label c p n h.0.1)
      ((λ e. m (sym e)), join-Lacks c (q ∷ ps) n m h.1)

no_whitespace_dot : (s : Text) → any is_whitespace s ≡ false → any is_whitespace (b'.' ∷ s) ≡ false
unfolding is_whitespace
no_whitespace_dot s h = h

pub no_whitespace-join :
    (ps : List Text) → All IsLabel ps → any is_whitespace (join b'.' ps) ≡ false
unfolding join
no_whitespace-join [] h = refl
no_whitespace-join (p ∷ []) h = no_whitespace_of_label p h.0.1
no_whitespace-join (p ∷ q ∷ ps) h =
    (any-append is_whitespace p _).1
      (no_whitespace_of_label p h.0.1, no_whitespace_dot _ (no_whitespace-join (q ∷ ps) h.1))

-- Where there are two labels the domain contains a dot, and neither begins nor ends with one.
pub contains-join :
    (p q : Text) (ps : List Text) → contains_char b'.' (join b'.' (p ∷ q ∷ ps)) ≡ true
unfolding contains_char join
contains-join [] q ps = refl
contains-join (c ∷ p) q ps = ground (arith, contains-join p q ps)

pub starts_with-join : (ps : List Text) → All IsLabel ps → starts_with b'.' (join b'.' ps) ≡ false
unfolding join
starts_with-join [] h = refl
starts_with-join ([] ∷ ps) h = absurd (h.0.0 refl)
starts_with-join ((c ∷ p) ∷ []) h = ground arith
starts_with-join ((c ∷ p) ∷ q ∷ ps) h = ground arith

starts_with-append : (c : ℕ) (s t : Text) → s ≢ [] → starts_with c (s ++ t) ≡ starts_with c s
starts_with-append c [] t n = absurd (n refl)
starts_with-append c (d ∷ s) t n = refl

reverse-ne-nil : (s : Text) → s ≢ [] → reverse s ≢ []
reverse-ne-nil s n e = n (sym (reverse-reverse s) ∙ ap reverse e)

ends_with-append : (c : ℕ) (s t : Text) → t ≢ [] → ends_with c (s ++ t) ≡ ends_with c t
unfolding ends_with
ends_with-append c s t n =
    rw (reverse-append s t) (starts_with-append c (reverse t) (reverse s) (reverse-ne-nil t n))

Lacks-reverse : (c : ℕ) (s : Text) → Lacks c s → Lacks c (reverse s)
Lacks-reverse c [] h = tt
Lacks-reverse c (d ∷ s) h =
    rw (reverse-append (d ∷ []) s)
      (Lacks-append c (reverse s) (d ∷ []) (Lacks-reverse c s h.1) (h.0, tt))

starts_with_of_Lacks : (c : ℕ) (s : Text) → Lacks c s → starts_with c s ≡ false
starts_with_of_Lacks c [] h = refl
starts_with_of_Lacks c (d ∷ s) h = ground arith

pub join-ne-nil : (p : Text) (ps : List Text) → p ≢ [] → join b'.' (p ∷ ps) ≢ []
unfolding join
join-ne-nil [] ps n e = n refl
join-ne-nil (c ∷ p) [] n e = cc
join-ne-nil (c ∷ p) (q ∷ ps) n e = cc

pub ends_with-join : (ps : List Text) → All IsLabel ps → ends_with b'.' (join b'.' ps) ≡ false
unfolding join
ends_with-join [] h = unfold ends_with in refl
ends_with-join (p ∷ []) h =
    unfold ends_with in
    starts_with_of_Lacks b'.' (reverse p)
      (Lacks-reverse b'.' p (Lacks-of_label b'.' p (omega arith) h.0.1))
ends_with-join (p ∷ q ∷ ps) h =
    ends_with-append b'.' p _ (cc)
    ∙ ends_with-append b'.' (b'.' ∷ []) _ (join-ne-nil q ps h.1.0.0)
    ∙ ends_with-join (q ∷ ps) h.1
