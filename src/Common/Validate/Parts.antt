-- ===== src/Common/Validate/Parts.antt =====
-- The local part and the domain of an address, as the checks on them see them.
use oa_libs.Base.{
  ◌≤◌, ◌≡◌, ◌≢◌, List, [], ◌∷◌, true, refl, sym, subst, All, length, is_empty_iff, arith,
}
use oa_libs.Std.Text.{Text, split, join, Lacks, len}
use oa_libs.Std.Text.Split.{join-split, split-join, split-Lacks, split-ne-nil}
use oa_libs.Common.Validate.{local_max_len, contains_char, are_valid_parts, check_parts}
use oa_libs.Common.Validate.Labels.{
  IsLabel, labels_iff, labels-Lacks, contains-join, starts_with-join, ends_with-join, join-ne-nil,
}

-- The domain part alone.
pub record IsDomain (s : Text) : Type 0 where
  pub labels : List Text
  pub form : s ≡ join b'.' labels
  pub dotted : 2 ≤ length labels
  pub labelled : All IsLabel labels

abbrev pub IsLocal : Text → Type 0
IsLocal s = (s ≢ []) × (len s ≤ local_max_len)

not-Lacks : (s : Text) → contains_char b'.' s ≡ true → ¬ Lacks b'.' s
unfolding contains_char
not-Lacks [] h l = cc
not-Lacks (c ∷ s) h l = ground (arith, not-Lacks s)

two_or_more :
    (s : Text) (ps : List Text)
    → contains_char b'.' s ≡ true
    → join b'.' ps ≡ s
    → ps ≢ []
    → All (Lacks b'.') ps
    → 2 ≤ length ps
unfolding join
two_or_more s [] h e n l = absurd (n refl)
two_or_more s (p ∷ []) h e n l = absurd (not-Lacks s h (subst (Lacks b'.') e l.0))
two_or_more s (p ∷ q ∷ ps) h e n l = omega arith

-- A dot makes two parts.
two_parts : (s : Text) → contains_char b'.' s ≡ true → 2 ≤ length (split b'.' s)
two_parts s h =
    two_or_more s (split b'.' s) h (join-split b'.' s) (split-ne-nil b'.' s) (split-Lacks b'.' s)

valid_parts_sound :
    (local domain : Text) → are_valid_parts local domain ≡ true → IsLocal local × IsDomain domain
unfolding are_valid_parts
valid_parts_sound local domain h =
    let ps = split b'.' domain in
    (
      ground arith,
      record {
        labels = ps;
        form = sym (join-split b'.' domain);
        dotted = two_parts domain (ground arith);
        labelled = (labels_iff ps).0 (ground arith);
      },
    )

pub valid_parts_complete :
    (local : Text) (labels : List Text)
    → IsLocal local
    → 2 ≤ length labels
    → All IsLabel labels
    → are_valid_parts local (join b'.' labels) ≡ true
unfolding are_valid_parts
valid_parts_complete local [] l d h = absurd (omega arith)
valid_parts_complete local (p ∷ []) l d h = absurd (omega arith)
valid_parts_complete local (p ∷ q ∷ ps) l d h =
    rw
      (
        contains-join p q ps,
        starts_with-join (p ∷ q ∷ ps) h,
        ends_with-join (p ∷ q ∷ ps) h,
        split-join b'.' (p ∷ q ∷ ps) (cc) (labels-Lacks b'.' (p ∷ q ∷ ps) (omega arith) h),
        (labels_iff (p ∷ q ∷ ps)).1 h,
      )
      (ground (
        arith,
        join-ne-nil p (q ∷ ps) h.0.0,
        is_empty_iff (join b'.' (p ∷ q ∷ ps)),
        is_empty_iff local,
      ))

pub check_parts_sound :
    (ps : List Text)
    → check_parts ps ≡ true
    → (local : Text) × (domain : Text) × (ps ≡ local ∷ domain ∷ [])
      × IsLocal local
      × IsDomain domain
unfolding check_parts
check_parts_sound [] h = absurd (cc)
check_parts_sound (local ∷ []) h = absurd (cc)
check_parts_sound (local ∷ domain ∷ []) h =
    let (l, d) = valid_parts_sound local domain h in (local, domain, refl, l, d)
check_parts_sound (local ∷ domain ∷ p ∷ ps) h = absurd (cc)
