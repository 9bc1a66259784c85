-- ===== src/Deps/Serde.antt =====
-- What the crates use of serde and serde_json to write structs as JSON values and to read them back:
-- the derived code is written out where a struct is declared, by the attributes of its fields.
use oa_libs.Base.{
  subst, map, refl, Bool, true, false, Option, none, some, List, [], ◌∷◌, ◌++◌, if◌then◌else◌, ◌≡◌,
}
use oa_libs.Deps.{Json}
use oa_libs.Std.Int.{ℤ}
use oa_libs.Std.Text.{Text, text_eq}

-- The value of a key among the members of an object.
unfoldable pub lookup : {A : Type 0} → Text → List (Text × A) → Option A
lookup key [] = none
lookup key ((k, v) ∷ members) =
    let rest = lookup key members in if text_eq k key then some v else rest

-- How values are made, and what they are read as, with the documented behaviour of both. The integers
-- are those of `i64`, and no key occurs twice among the members of an object.
pub record Serde (J : Json) : Type 0 where
  pub from_str : Text → J.Value
  pub from_bool : Bool → J.Value
  pub from_int : ℤ → J.Value
  pub from_list : List J.Value → J.Value
  pub from_members : List (Text × J.Value) → J.Value
  pub from_null : J.Value
  pub as_int : J.Value → Option ℤ
  pub as_list : J.Value → Option (List J.Value)
  pub is_null : J.Value → Bool
  pub as_str-from_str : (s : Text) → J.as_str (from_str s) ≡ some s
  pub as_bool-from_bool : (b : Bool) → J.as_bool (from_bool b) ≡ some b
  pub as_int-from_int : (n : ℤ) → as_int (from_int n) ≡ some n
  pub as_list-from_list : (vs : List J.Value) → as_list (from_list vs) ≡ some vs
  pub get-from_members :
      (members : List (Text × J.Value)) (key : Text)
      → J.get (from_members members) key ≡ lookup key members
  pub is_null-from_null : is_null from_null ≡ true
  pub is_null-from_str : (s : Text) → is_null (from_str s) ≡ false

-- A step that needs the result of another one; `none` is any error.
unfoldable pub then_read : {A B : Type 0} → Option A → (A → Option B) → Option B
then_read none f = none
then_read (some a) f = f a

-- What holds of the result of a step, where it has one.
unfoldable pub Yields : {A : Type 0} → (A → Type 0) → Option A → Type 0
Yields P none = Unit
Yields P (some a) = P a

pub Yields-then_read :
    {A B : Type 0} (P : B → Type 0) (o : Option A) (f : A → Option B)
    → ((a : A) → o ≡ some a → Yields P (f a))
    → Yields P (then_read o f)
unfolding Yields then_read
Yields-then_read P none f h = tt
Yields-then_read P (some a) f h = h a refl

pub Yields-some :
    {A : Type 0} (P : A → Type 0) (o : Option A) {a : A} → Yields P o → o ≡ some a → P a
unfolding Yields
Yields-some P o held same = subst (Yields P) same held

pub Yields-result : {A : Type 0} (P : A → Type 0) (a : A) → P a → Yields P (some a)
unfolding Yields
Yields-result P a h = h

-- A `Vec` is read item by item.
unfoldable pub each : {A B : Type 0} → (A → Option B) → List A → Option (List B)
each read [] = some []
each read (v ∷ vs) = then_read (read v) (λ a. then_read (each read vs) (λ rest. some (a ∷ rest)))

pub each-map :
    {A B : Type 0} (read : B → Option A) (write : A → B) (xs : List A)
    → ((a : A) → read (write a) ≡ some a)
    → each read (map write xs) ≡ some xs
unfolding each then_read
each-map read write [] h = refl
each-map read write (x ∷ xs) h = rw (h x, each-map read write xs h) refl

-- The member that `skip_serializing_if = "Option::is_none"` writes.
abbrev pub optional : {A V : Type 0} → Text → (A → V) → Option A → List (Text × V)
optional key write none = []
optional key write (some a) = (key, write a) ∷ []

abbrev pub written : {A V : Type 0} → (A → V) → Option A → Option V
written write none = none
written write (some a) = some (write a)

-- What `optional` writes is found under its own key, and it hides no other key.
pub lookup-optional :
    {A V : Type 0} (key : Text) (write : A → V) (o : Option A) (rest : List (Text × V))
    → text_eq key key ≡ true
    → lookup key rest ≡ none
    → lookup key (optional key write o ++ rest) ≡ written write o
unfolding lookup
lookup-optional key write none rest same absent = absent
lookup-optional key write (some a) rest same absent = rw same refl

pub lookup_past_optional :
    {A V : Type 0} (key other : Text) (write : A → V) (o : Option A) (rest : List (Text × V))
    → text_eq other key ≡ false
    → lookup key (optional other write o ++ rest) ≡ lookup key rest
unfolding lookup
lookup_past_optional key other write none rest differ = refl
lookup_past_optional key other write (some a) rest differ = rw differ refl

-- An `Option` without that attribute.
unfoldable pub or_null : {A V : Type 0} → V → (A → V) → Option A → V
or_null null write none = null
or_null null write (some a) = write a

module _ {J : Json} (S : Serde J) where
  open J use {Value, get, as_str, as_bool}
  open S use {as_list, is_null, from_str, from_list}

  -- A member without `default`: it is an error if it is missing.
  unfoldable pub required : {A : Type 0} → (Value → Option A) → Text → Value → Option A
  required read key v = then_read (get v key) read

  unfoldable pub present_or : {A : Type 0} → (Value → Option A) → A → Option Value → Option A
  present_or read default none = some default
  present_or read default (some m) = read m

  -- A member with `default`.
  unfoldable pub defaulted : {A : Type 0} → (Value → Option A) → A → Text → Value → Option A
  unfolding present_or
  defaulted read default key v = present_or read default (get v key)

  -- An `Option`: nothing for a member that is missing or `null`.
  unfoldable pub present_some : {A : Type 0} → (Value → Option A) → Option Value → Option (Option A)
  present_some read none = some none
  present_some read (some m) =
      if is_null m then some none else then_read (read m) (λ a. some (some a))

  unfoldable pub nullable : {A : Type 0} → (Value → Option A) → Text → Value → Option (Option A)
  unfolding present_some
  nullable read key v = present_some read (get v key)

  -- A `Vec<String>`.
  unfoldable pub read_texts : Value → Option (List Text)
  read_texts v = then_read (as_list v) (each as_str)

  unfoldable pub write_texts : List Text → Value
  write_texts ts = from_list (map from_str ts)

  pub read_texts-write_texts : (ts : List Text) → read_texts (write_texts ts) ≡ some ts
  unfolding read_texts write_texts then_read each
  read_texts-write_texts ts =
      rw (S.as_list-from_list (map from_str ts)) (each-map as_str from_str ts S.as_str-from_str)

  pub required-get :
      {A : Type 0} (read : Value → Option A) (key : Text) (v : Value) {m : Value} {a : A}
      → get v key ≡ some m
      → read m ≡ some a
      → required read key v ≡ some a
  unfolding required then_read
  required-get read key v found right = rw (found, right) refl

  pub defaulted-get :
      {A : Type 0} (read : Value → Option A) (default : A) (key : Text) (v : Value) {m : Value}
      {a : A}
      → get v key ≡ some m
      → read m ≡ some a
      → defaulted read default key v ≡ some a
  unfolding defaulted present_or
  defaulted-get read default key v found right = rw (found, right) refl

  -- A member that was written for an `Option` is read as that `Option`, if what it holds is not written
  -- as `null`.
  pub nullable-get :
      {A : Type 0} (read : Value → Option A) (write : A → Value) (key : Text) (v : Value)
      (o : Option A)
      → get v key ≡ written write o
      → ((a : A) → o ≡ some a → (is_null (write a) ≡ false) × (read (write a) ≡ some a))
      → nullable read key v ≡ some o
  unfolding nullable present_some then_read
  nullable-get read write key v none found right = rw found refl
  nullable-get read write key v (some a) found right =
      let (full, same) = right a refl in rw (found, full, same) refl
