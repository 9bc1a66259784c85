-- ===== src/Base/Results.antt =====
-- Rust's `Result`, and calls that also change the state of the world they run in.
use mathlib.Core.Path.{◌≡◌, refl}
use native.Mathlib.Omega.{arith}
use mathlib.Core.Bool.{Bool, true, false}
use mathlib.Core.Option.{Option, none, some}
use mathlib.Core.Logic.{◌⊎◌, inl, inr}

pub data Result {ℓ κ} (A : Type ℓ) (E : Type κ) : Type (ℓ ⊔ κ) where
  ok : A → Result A E
  err : E → Result A E

-- A call in a world of states `S`: the result, and the state that the call leaves.
abbrev pub Action : Type 0 → Type 0 → Type 0 → Type 0
Action S A E = S → Result A E × S

module _ {A B E : Type 0} where
  -- The `?` operator.
  abbrev pub and_then : Result A E → (A → Result B E) → Result B E
  and_then (ok a) f = f a
  and_then (err e) f = err e

  abbrev pub map_ok : (A → B) → Result A E → Result B E
  map_ok f (ok a) = ok (f a)
  map_ok f (err e) = err e

abbrev pub map_err : {A E F : Type 0} → (E → F) → Result A E → Result A F
map_err f (ok a) = ok a
map_err f (err e) = err (f e)

-- `Result::ok`.
abbrev pub to_option : {A E : Type 0} → Result A E → Option A
to_option (ok a) = some a
to_option (err e) = none

-- `Option::ok_or`.
abbrev pub ok_or : {A E : Type 0} → E → Option A → Result A E
ok_or e none = err e
ok_or e (some a) = ok a

-- The `?` operator on a call that changes the state.
abbrev pub is_none : {A : Type 0} → Option A → Bool
is_none none = true
is_none (some a) = false

abbrev pub is_ok : {A E : Type 0} → Result A E → Bool
is_ok (ok a) = true
is_ok (err e) = false

abbrev pub is_err : {A E : Type 0} → Result A E → Bool
is_err (ok a) = false
is_err (err e) = true

abbrev pub continue :
    {S A B E : Type 0} → Result A E × S → (A → S → Result B E × S) → Result B E × S
continue (ok a, s) f = f a s
continue (err e, s) f = (err e, s)

pub Result-cases :
    {A E : Type 0} (r : Result A E) → ((a : A) × (r ≡ ok a)) ⊎ ((e : E) × (r ≡ err e))
Result-cases (ok a) = inl (a, refl)
Result-cases (err e) = inr (e, refl)

-- A chain that succeeds has succeeded in its first call, and is what follows that call.
pub continue-eq-ok :
    {S A B E : Type 0} (m : Result A E × S) (f : A → S → Result B E × S) {b : B}
    → (continue m f).0 ≡ ok b
    → (a : A) × (m.0 ≡ ok a) × (continue m f ≡ f a m.1)
continue-eq-ok (ok a, s) f h = (a, refl, refl)
continue-eq-ok (err e, s) f h = absurd (cc)

-- A chain that fails has failed in its first call or in what follows.
pub continue-eq-err :
    {S A B E : Type 0} (m : Result A E × S) (f : A → S → Result B E × S) {e : E}
    → (continue m f).0 ≡ err e
    → (m.0 ≡ err e) ⊎ ((a : A) × (m.0 ≡ ok a) × ((f a m.1).0 ≡ err e))
continue-eq-err (ok a, s) f h = inr (a, refl, h)
continue-eq-err (err e, s) f h = inl (ground arith)

-- What each call keeps the chain keeps, whether or not it succeeds.
pub continue-keeps :
    {S A B E : Type 0} (P : S → Type 0) (m : Result A E × S) (f : A → S → Result B E × S)
    → P m.1
    → ((a : A) (s : S) → m.0 ≡ ok a → P s → P (f a s).1)
    → P (continue m f).1
continue-keeps P (ok a, s) f h k = k a s refl h
continue-keeps P (err e, s) f h k = h
