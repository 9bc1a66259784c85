-- ===== src/Common/Validate/Email.antt =====
-- Which e-mail addresses are accepted.
use oa_libs.Base.{
  ℕ, ◌≤◌, ◌≡◌, ◌≢◌, ◌↔◌, List, [], ◌∷◌, ◌++◌, true, false, sym, ap, subst, ◌∙◌, All, any, length,
  is_empty_iff, arith,
}
use oa_libs.Std.Chars.{is_whitespace}
use oa_libs.Std.Text.{Text, split, join, Lacks, len, trim}
use oa_libs.Std.Text.Laws.{any-append}
use oa_libs.Std.Text.Split.{join-split, split-Lacks, split-append_sep, split_of_Lacks}
use oa_libs.Common.Validate.{
  email_max_len, local_max_len, check_parts, is_valid_trimmed, is_valid_email,
}
use oa_libs.Common.Validate.Labels.{IsLabel, join-Lacks, no_whitespace-join}
use oa_libs.Common.Validate.Parts.{IsLocal, valid_parts_complete, check_parts_sound}

-- The shape of an accepted address: a local part, `@`, and two or more labels with dots between them.
pub record IsEmail (s : Text) : Type 0 where
  pub local : Text
  pub labels : List Text
  pub form : s ≡ local ++ b'@' ∷ join b'.' labels
  pub fits : len s ≤ email_max_len
  pub local_given : local ≢ []
  pub local_fits : len local ≤ local_max_len
  pub local_single : Lacks b'@' local
  pub local_solid : any is_whitespace local ≡ false
  pub dotted : 2 ≤ length labels
  pub labelled : All IsLabel labels

-- What the three guards let through.
guards_sound :
    (email : Text)
    → is_valid_trimmed email ≡ true
    → (len email ≤ email_max_len)
      × (any is_whitespace email ≡ false)
      × (check_parts (split b'@' email) ≡ true)
unfolding is_valid_trimmed
guards_sound email h = ground arith

two_parts_form :
    (email local domain : Text)
    → split b'@' email ≡ local ∷ domain ∷ []
    → (email ≡ local ++ b'@' ∷ domain) × Lacks b'@' local
unfolding join
two_parts_form email local domain e = (
  sym (join-split b'@' email) ∙ ap (join b'@') e,
  (subst (All (Lacks b'@')) e (split-Lacks b'@' email)).0,
)

solid_left :
    (email local rest : Text)
    → email ≡ local ++ rest
    → any is_whitespace email ≡ false
    → any is_whitespace local ≡ false
solid_left email local rest e h =
    ((any-append is_whitespace local rest).0 (subst (λ t. any is_whitespace t ≡ false) e h)).0

trimmed_sound : (email : Text) → is_valid_trimmed email ≡ true → IsEmail email
trimmed_sound email h =
    let (fits, solid, checked) = guards_sound email h in
    let (local, domain, parts, l, d) = check_parts_sound (split b'@' email) checked in
    let (form, single) = two_parts_form email local domain parts in
    record {
      local = local;
      labels = d.labels;
      form = form ∙ ap (λ t. local ++ b'@' ∷ t) d.form;
      fits = fits;
      local_given = l.0;
      local_fits = l.1;
      local_single = single;
      local_solid = solid_left email local (b'@' ∷ domain) form solid;
      dotted = d.dotted;
      labelled = d.labelled;
    }

guards_complete :
    (email : Text)
    → email ≢ []
    → len email ≤ email_max_len
    → any is_whitespace email ≡ false
    → check_parts (split b'@' email) ≡ true
    → is_valid_trimmed email ≡ true
unfolding is_valid_trimmed
guards_complete email n f w c = ground (arith, is_empty_iff email)

solid_at :
    (local domain : Text)
    → any is_whitespace local ≡ false
    → any is_whitespace domain ≡ false
    → any is_whitespace (local ++ b'@' ∷ domain) ≡ false
unfolding is_whitespace
solid_at local domain l d = (any-append is_whitespace local (b'@' ∷ domain)).1 (l, d)

append-cons-ne-nil : (a : Text) (c : ℕ) (b : Text) → a ++ c ∷ b ≢ []
append-cons-ne-nil [] c b e = cc
append-cons-ne-nil (d ∷ a) c b e = cc

parts_complete :
    (email local : Text) (labels : List Text)
    → email ≡ local ++ b'@' ∷ join b'.' labels
    → Lacks b'@' local
    → IsLocal local
    → 2 ≤ length labels
    → All IsLabel labels
    → check_parts (split b'@' email) ≡ true
unfolding check_parts
parts_complete email local labels e single l d h =
    let domain = join b'.' labels in
    rw
      (
        e,
        split-append_sep b'@' local domain single,
        split_of_Lacks b'@' domain (join-Lacks b'@' labels (omega arith) (omega arith) h),
      )
      (valid_parts_complete local labels l d h)

trimmed_complete : (email : Text) → IsEmail email → is_valid_trimmed email ≡ true
trimmed_complete email e =
    let domain = join b'.' e.labels in
    guards_complete email (λ nil. append-cons-ne-nil e.local b'@' domain (sym e.form ∙ nil)) e.fits
      (subst (λ t. any is_whitespace t ≡ false) (sym e.form)
        (solid_at e.local domain e.local_solid (no_whitespace-join e.labels e.labelled)))
      (parts_complete email e.local e.labels e.form e.local_single (e.local_given, e.local_fits)
        e.dotted e.labelled)

-- An address is accepted exactly if, without the whitespace around it, it is a local part of 1 to 64
-- bytes without `@` or whitespace, an `@`, and a domain of two or more labels with dots between
-- them, each a non-empty run of ASCII letters, digits and hyphens, all in at most 254 bytes.
pub is_valid_email_iff : (s : Text) → (is_valid_email s ≡ true) ↔ IsEmail (trim s)
unfolding is_valid_email
is_valid_email_iff s = (trimmed_sound (trim s), trimmed_complete (trim s))
