-- ===== src/Std/Text/Split.antt =====
-- Splitting a text at a character and joining the parts again.
use oa_libs.Base.{
  ℕ, ◌≡◌, refl, ap₂, subst, sym, ◌≢◌, none, some, List, [], ◌∷◌, ◌++◌, arith, All, Option-cases,
  inl, inr, cons-injective,
}
use oa_libs.Std.Text.{Text, cons_head, split, split_once, join, Lacks}

module _ (sep : ℕ) where
  pub split-ne-nil : (s : Text) → split sep s ≢ []
  unfolding split
  split-ne-nil [] = cc
  split-ne-nil (c ∷ s) = ground (arith, split-ne-nil s)

  join-cons_head : (c : ℕ) (ps : List Text) → ps ≢ [] → join sep (cons_head c ps) ≡ c ∷ join sep ps
  unfolding join
  join-cons_head c [] h = absurd (h refl)
  join-cons_head c (p ∷ []) h = refl
  join-cons_head c (p ∷ q ∷ ps) h = refl

  join-nil_cons : (ps : List Text) → ps ≢ [] → join sep ([] ∷ ps) ≡ sep ∷ join sep ps
  unfolding join
  join-nil_cons [] h = absurd (h refl)
  join-nil_cons (p ∷ ps) h = refl

  -- Joining the parts of a split gives the text back.
  pub join-split : (s : Text) → join sep (split sep s) ≡ s
  unfolding split
  join-split [] = unfold join in refl
  join-split (c ∷ s) = ground (
    arith,
    join-split s,
    split-ne-nil s,
    join-cons_head c (split sep s),
    join-nil_cons (split sep s),
  )

  cons_head-Lacks :
      (c : ℕ) (ps : List Text) → c ≢ sep → All (Lacks sep) ps → All (Lacks sep) (cons_head c ps)
  cons_head-Lacks c [] n h = ((n, tt), tt)
  cons_head-Lacks c (p ∷ ps) n h = ((n, h.0), h.1)

  -- No part of a split holds the separator.
  pub split-Lacks : (s : Text) → All (Lacks sep) (split sep s)
  unfolding split
  split-Lacks [] = (tt, tt)
  split-Lacks (c ∷ s) = ground (arith, split-Lacks s, cons_head-Lacks c (split sep s))

  pub split_of_Lacks : (p : Text) → Lacks sep p → split sep p ≡ p ∷ []
  unfolding split
  split_of_Lacks [] h = refl
  split_of_Lacks (c ∷ p) h = ground (arith, split_of_Lacks p)

  pub split-append_sep : (p s : Text) → Lacks sep p → split sep (p ++ sep ∷ s) ≡ p ∷ split sep s
  unfolding split
  split-append_sep [] s h = ground arith
  split-append_sep (c ∷ p) s h = ground (arith, split-append_sep p s)

  cons_head-append :
      (c : ℕ) (ps qs : List Text) → ps ≢ [] → cons_head c (ps ++ qs) ≡ cons_head c ps ++ qs
  cons_head-append c [] qs h = absurd (h refl)
  cons_head-append c (p ∷ ps) qs h = refl

  -- A separator splits a text into what stands before it and behind it.
  pub split_at_sep : (a b : Text) → split sep (a ++ sep ∷ b) ≡ split sep a ++ split sep b
  unfolding split
  split_at_sep [] b = ground arith
  split_at_sep (c ∷ a) b =
      ground
        (arith, split_at_sep a b, split-ne-nil a, cons_head-append c (split sep a) (split sep b))

  -- Splitting a join gives the parts back, if there is one and none holds the separator.
  pub split-join : (ps : List Text) → ps ≢ [] → All (Lacks sep) ps → split sep (join sep ps) ≡ ps
  unfolding join
  split-join [] n h = absurd (n refl)
  split-join (p ∷ []) n h = split_of_Lacks p h.0
  split-join (p ∷ q ∷ ps) n h = rw (split-append_sep p _ h.0, split-join (q ∷ ps) (cc) h.1)

  pub Lacks-append : (a b : Text) → Lacks sep a → Lacks sep b → Lacks sep (a ++ b)
  Lacks-append [] b ha hb = hb
  Lacks-append (c ∷ a) b ha hb = (ha.0, Lacks-append a b ha.1 hb)

  -- `split_once` cuts at the first separator.
  pub split_once_sound :
      (s a b : Text) → split_once sep s ≡ some (a, b) → (s ≡ a ++ sep ∷ b) × Lacks sep a
  unfolding split_once
  split_once_sound [] a b e = cc
  split_once_sound (c ∷ s) a b e = elim (Option-cases (split_once sep s)) [
    | inl missed ↦ ground arith
    | inr (p, found) ↦ ground (arith, split_once_sound s p.0 p.1 found)
  ]

  pub split_once-append_sep :
      (a b : Text) → Lacks sep a → split_once sep (a ++ sep ∷ b) ≡ some (a, b)
  unfolding split_once
  split_once-append_sep [] b h = ground arith
  split_once-append_sep (c ∷ a) b h = ground (arith, split_once-append_sep a b)

  pub split_once-eq-none : (s : Text) → split_once sep s ≡ none → Lacks sep s
  unfolding split_once
  split_once-eq-none [] e = tt
  split_once-eq-none (c ∷ s) e = ground (arith, split_once-eq-none s)

  not-Lacks-append_sep : (a b : Text) → ¬ Lacks sep (a ++ sep ∷ b)
  not-Lacks-append_sep [] b h = h.0 refl
  not-Lacks-append_sep (c ∷ a) b h = not-Lacks-append_sep a b h.1

  -- Two texts cut at their last separator are equal part by part.
  pub last_sep-injective :
      (a b x y : Text) → Lacks sep x → Lacks sep y → a ++ sep ∷ x ≡ b ++ sep ∷ y → (a ≡ b) × (x ≡ y)
  last_sep-injective [] [] x y hx hy e = (refl, (cons-injective e).1)
  last_sep-injective [] (c ∷ b) x y hx hy e =
      absurd (not-Lacks-append_sep b y (subst (Lacks sep) (cons-injective e).1 hx))
  last_sep-injective (c ∷ a) [] x y hx hy e =
      absurd (not-Lacks-append_sep a x (subst (Lacks sep) (sym (cons-injective e).1) hy))
  last_sep-injective (c ∷ a) (d ∷ b) x y hx hy e =
      let (same, rest) = cons-injective e in
      let (as_one, xs) = last_sep-injective a b x y hx hy rest in (ap₂ ◌∷◌ same as_one, xs)
