-- ===== src/Auth/Claims/Permissions.antt =====
-- Roles, scopes and the permission matrix of bots.
use oa_libs.Base.{
  map, All, ◌≡◌, ◌↔◌, ◌⊎◌, refl, sym, ap, ap₂, ◌∙◌, Bool, true, false, Option, none, some, List, [],
  ◌∷◌, ◌++◌, Any, arith, if◌then◌else◌,
}
use mathlib.Core.Option.{some-injective}
use oa_libs.Deps.{Json}
use oa_libs.Std.Text.{Text, codes, Lacks, split_once}
use oa_libs.Std.Text.Laws.{text_eq_iff}
use oa_libs.Std.Text.Split.{split_once-append_sep}
use oa_libs.Std.Int.{ℤ, ◌≤ℤ◌}
use oa_libs.Auth.Claims.{
  Claims, has, has_role, is_admin, has_resource_scope, is_bot, is_expired, allow_module,
  matrix_allows, member, as_flag,
}

abbrev pub Has : Text → List Text → Type 0
Has a = Any (λ x. x ≡ a)

pub has_iff : (a : Text) (xs : List Text) → (has a xs ≡ true) ↔ Has a xs
has_iff a [] = ground arith
has_iff a (x ∷ xs) = ground (arith, text_eq_iff x a, has_iff a xs)

scope-injective :
    (kind id kind' id' : Text)
    → Lacks b':' kind
    → Lacks b':' kind'
    → kind ++ b':' ∷ id ≡ kind' ++ b':' ∷ id'
    → (kind ≡ kind') × (id ≡ id')
scope-injective kind id kind' id' h h' e =
    let parts : Text × Text = (kind, id) in
    let parts' : Text × Text = (kind', id') in
    let same : some parts ≡ some parts' =
      sym (split_once-append_sep b':' kind id h)
      ∙ ap (split_once b':') e
      ∙ split_once-append_sep b':' kind' id' h' in
    let whole = some-injective parts parts' same in
    (ap (λ (p : Text × Text). p.0) whole, ap (λ (p : Text × Text). p.1) whole)

scope_cong :
    (kind id kind' id' : Text)
    → (kind ≡ kind') × (id ≡ id')
    → kind ++ b':' ∷ id ≡ kind' ++ b':' ∷ id'
scope_cong kind id kind' id' (k, i) = ap₂ (λ (a b : Text). a ++ b':' ∷ b) k i

-- The scopes that spell a list of resources.
abbrev pub spelled : List (Text × Text) → List Text
spelled = map (λ r. r.0 ++ b':' ∷ r.1)

Has-spelled_iff :
    (rs : List (Text × Text)) (kind id : Text)
    → All (λ r. Lacks b':' r.0) rs
    → Lacks b':' kind
    → Has (kind ++ b':' ∷ id) (spelled rs) ↔ Any (λ r. (r.0 ≡ kind) × (r.1 ≡ id)) rs
Has-spelled_iff [] kind id h k = ground arith
Has-spelled_iff ((kind', id') ∷ rs) kind id h k = ground (
  arith,
  scope-injective kind' id' kind id h.0 k,
  scope_cong kind' id' kind id,
  Has-spelled_iff rs kind id h.1 k,
)

-- Resources are told apart: the scopes that spell a list of resources, none with a colon in its kind,
-- grant a resource, whose kind has no colon either, exactly if it is in the list with its kind and
-- its identifier; an identifier may hold colons.
pub has_resource_scope_exact :
    {Value : Type 0} (c : Claims Value) (rs : List (Text × Text)) (kind id : Text)
    → c.scopes ≡ spelled rs
    → All (λ r. Lacks b':' r.0) rs
    → Lacks b':' kind
    → (has_resource_scope c kind id ≡ true) ↔ Any (λ r. (r.0 ≡ kind) × (r.1 ≡ id)) rs
unfolding has_resource_scope
has_resource_scope_exact c rs kind id e h k =
    rw e (ground (arith, has_iff (kind ++ b':' ∷ id) (spelled rs), Has-spelled_iff rs kind id h k))

-- An administrator is who has one of the two roles; a plain member has neither.
pub is_admin_iff :
    {Value : Type 0} (c : Claims Value)
    → (is_admin c ≡ true) ↔ (Has (codes "admin") c.roles ⊎ Has (codes "superadmin") c.roles)
unfolding is_admin has_role
is_admin_iff c =
    ground (arith, has_iff (codes "admin") c.roles, has_iff (codes "superadmin") c.roles)

-- Expiry is monotone and takes effect in the very second of `exp`.
pub is_expired_iff :
    {Value : Type 0} (c : Claims Value) (now : ℤ) → (is_expired c now ≡ true) ↔ (c.exp ≤ℤ now)
unfolding is_expired
is_expired_iff c now = ground arith

module _ (J : Json) where
  open J use {Value, get, as_bool}

  -- The matrix has a row for the module, with the flag of the access set to the Boolean `true`.
  abbrev pub Grants : Option Value → Text → Bool → Type 0
  Grants permissions mod_name write =
      (matrix row flag : Value) × (permissions ≡ some matrix)
      × (get matrix mod_name ≡ some row)
      × (get row (if write then codes "write" else codes "read") ≡ some flag)
      × (as_bool flag ≡ some true)

  flag_sound :
      (o : Option Value)
      → as_flag J o ≡ true
      → (flag : Value) × (o ≡ some flag) × (as_bool flag ≡ some true)
  unfolding as_flag
  flag_sound none h = absurd (cc)
  flag_sound (some v) h = (v, refl, ground arith)

  member_sound :
      (key : Text) (o : Option Value) (v : Value)
      → member J key o ≡ some v
      → (w : Value) × (o ≡ some w) × (get w key ≡ some v)
  unfolding member
  member_sound key none v h = absurd (cc)
  member_sound key (some w) v h = (w, refl, h)

  pub matrix_sound :
      (permissions : Option Value) (mod_name : Text) (write : Bool)
      → matrix_allows J permissions mod_name write ≡ true
      → Grants permissions mod_name write
  unfolding matrix_allows
  matrix_sound permissions mod_name write h =
      let (flag, in_row, is_set) = flag_sound _ h in
      let (row, in_matrix, at_key) = member_sound _ _ flag in_row in
      let (matrix, given, at_module) = member_sound mod_name permissions row in_matrix in
      (matrix, row, flag, given, at_module, at_key, is_set)

  matrix_complete :
      (permissions : Option Value) (mod_name : Text) (write : Bool)
      → Grants permissions mod_name write
      → matrix_allows J permissions mod_name write ≡ true
  unfolding matrix_allows
  matrix_complete permissions mod_name write (matrix, row, flag, given, at_module, at_key, is_set) =
      rw given (rw (at_module, member) (rw at_key (rw (is_set, as_flag))))

  -- A human account may access every module. A bot may exactly if its matrix has a row for the module
  -- and that row sets the flag of the access to `true`: a missing matrix, a missing row, a missing
  -- flag and a flag that is no Boolean all deny.
  pub allow_module_iff :
      (c : Claims Value) (mod_name : Text) (write : Bool)
      → (allow_module J c mod_name write ≡ true)
        ↔ ((is_bot c ≡ false) ⊎ Grants c.bot_permissions mod_name write)
  unfolding allow_module
  allow_module_iff c mod_name write = ground (
    arith,
    matrix_sound c.bot_permissions mod_name write,
    matrix_complete c.bot_permissions mod_name write,
  )
