-- ===== src/Storage/Key/Confinement.antt =====
-- A valid key cannot lead out of the root directory.
use oa_libs.Base.{
  err, subst, Result-cases, ◌≡◌, ◌≢◌, ◌⊎◌, inl, inr, refl, sym, ap, ◌∙◌, false, List, [], ◌∷◌, ◌++◌,
  All, All-append, append_assoc, is_empty, if◌then◌else◌, Bool-cases, ok, arith, ◌||◌,
}
use oa_libs.Std.Text.Split.{split_at_sep}
use oa_libs.Std.Text.Laws.{ends_with_form, text_eq_iff}
use oa_libs.Std.Text.{Text, codes, text_eq, starts_with, ends_with, split}
use oa_libs.Std.Path.{join_path}
use oa_libs.Storage.Traits.{StorageError, invalid_key}
use oa_libs.Storage.Key.{validate_key, resolve_within}
use oa_libs.Storage.Key.Grammar.{IsSegment, validate_key_iff, not-absolute, validate_key-err}

abbrev up : List Text → List Text
up [] = []
up (d ∷ stack) = stack

-- How a file system without links follows a path: the stack of directories, its innermost first.
follow : List Text → Text → List Text
follow stack segment =
    if is_empty segment || text_eq segment (codes ".")
    then stack
    else if text_eq segment (codes "..")
    then up stack
    else segment ∷ stack

pub walk : List Text → List Text → List Text
unfolding follow
walk stack [] = stack
walk stack (p ∷ ps) = walk (follow stack p) ps

-- The directories on the way to the place that a path names.
pub location : Text → List Text
unfolding walk split text_eq
location path = walk [] (split b'/' path)

-- The name of a file or directory below another one.
abbrev pub IsName : Text → Type 0
IsName s = (s ≢ []) × (s ≢ codes ".") × (s ≢ codes "..")

follow-IsSegment :
    (stack : List Text) (p : Text)
    → IsSegment p
    → (follow stack p ≡ stack) ⊎ ((follow stack p ≡ p ∷ stack) × IsName p)
unfolding follow
follow-IsSegment stack [] h = absurd (h.0 refl)
follow-IsSegment stack (c ∷ p) h =
    ground (arith, text_eq_iff (c ∷ p) (codes "."), text_eq_iff (c ∷ p) (codes ".."))

abbrev Below : List Text → List Text → Type 0
Below stack end = (names : List Text) × (end ≡ names ++ stack) × All IsName names

walk-Below : (stack : List Text) (ps : List Text) → All IsSegment ps → Below stack (walk stack ps)
unfolding walk
walk-Below stack [] h = ([], refl, tt)
walk-Below stack (p ∷ ps) h = elim (follow-IsSegment stack p h.0) [
  | inl same ↦ rw same (walk-Below stack ps h.1)
  | inr (pushed, name) ↦
      let (names, form, all) = walk-Below (p ∷ stack) ps h.1 in
      (
        names ++ p ∷ [],
        ap (λ s. walk s ps) pushed ∙ form ∙ sym (append_assoc names (p ∷ []) stack),
        All-append IsName names (p ∷ []) all (name, tt),
      )
]

walk-append :
    (stack : List Text) (ps qs : List Text) → walk stack (ps ++ qs) ≡ walk (walk stack ps) qs
unfolding walk
walk-append stack [] qs = refl
walk-append stack (p ∷ ps) qs = walk-append (follow stack p) ps qs

-- An empty part stays where it is.
walk_nothing : (stack : List Text) → walk stack (split b'/' []) ≡ stack
unfolding walk split
walk_nothing stack = refl

joined_walk : (a b : Text) → location (a ++ b'/' ∷ b) ≡ walk (location a) (split b'/' b)
unfolding location
joined_walk a b = rw (split_at_sep b'/' a b) (walk-append [] (split b'/' a) (split b'/' b))

slash_walk :
    (front key : Text)
    → location ((front ++ b'/' ∷ []) ++ key) ≡ walk (location (front ++ b'/' ∷ [])) (split b'/' key)
slash_walk front key =
    ap location (append_assoc front (b'/' ∷ []) key)
    ∙ joined_walk front key
    ∙ ap (λ d. walk d (split b'/' key)) (sym (joined_walk front [] ∙ walk_nothing (location front)))

location_joined :
    (root key : Text)
    → starts_with b'/' key ≡ false
    → location (join_path root key) ≡ walk (location root) (split b'/' key)
unfolding join_path
location_joined [] key h = rw h (unfold location in rw walk_nothing)
location_joined (c ∷ r) key h = elim (Bool-cases (ends_with b'/' (c ∷ r))) [
  | inl slash ↦
      let (front, form) = ends_with_form b'/' (c ∷ r) slash in
      rw (h, slash)
        (subst (λ t. location (t ++ key) ≡ walk (location t) (split b'/' key)) (sym form)
          (slash_walk front key))
  | inr plain ↦ rw (h, plain) (joined_walk (c ∷ r) key)
]

resolve_within-ok :
    (root key path : Text)
    → resolve_within root key ≡ ok path
    → (validate_key key ≡ ok tt) × (path ≡ join_path root key)
unfolding resolve_within
resolve_within-ok root key path e = elim (Result-cases (validate_key key)) [
  | inl (a, valid) ↦ ground arith
  | inr (f, invalid) ↦ absurd (ground arith)
]

pub resolve_within-err :
    (root key : Text) (e : StorageError) → resolve_within root key ≡ err e → e ≡ invalid_key key
unfolding resolve_within
resolve_within-err root key e h = elim (Result-cases (validate_key key)) [
  | inl (a, valid) ↦ absurd (ground arith)
  | inr (f, invalid) ↦ validate_key-err key e (ground arith)
]

-- Wherever the root directory is, the path of a valid key leads to a place below it: the root's own
-- directories and then only names of files and directories, with no way up.
pub resolve_within-Below :
    (root key path : Text)
    → resolve_within root key ≡ ok path
    → (names : List Text) × (location path ≡ names ++ location root) × All IsName names
resolve_within-Below root key path e =
    let (valid, form) = resolve_within-ok root key path e in
    let (short, chars, segments) = (validate_key_iff key).0.0 valid in
    let (names, ends, all) = walk-Below (location root) (split b'/' key) segments in
    (names, ap location form ∙ location_joined root key (not-absolute key segments) ∙ ends, all)
