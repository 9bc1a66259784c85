-- ===== src/Bus/Outbox/Samples/Laws.antt =====
-- The table with at most one row and the server keep the laws of the outbox.
use oa_libs.Base.{
  ◌<◌, ◌⊎◌, sym, subst, inr, inl, ◌∙◌, Bool-cases, ap, ℕ, ◌≤◌, ◌==◌, ◌≡◌, ◌≢◌, refl, true, false,
  Option, none, some, List, [], ◌∷◌, map, All, Any, length, Result, ok, arith,
}
use mathlib.Core.Option.{some-injective}
use oa_libs.Std.Text.Laws.{text_eq_iff}
use oa_libs.Deps.Samples.{seconds}
use oa_libs.Std.Text.{Text}
use oa_libs.Std.Int.{ltb_ℤ}
use oa_libs.Bus.Samples.{strings}
use oa_libs.Bus.Outbox.{Patch, Query}
use oa_libs.Bus.Outbox.Table.{TableLaws, patched, AllApart}
use oa_libs.Bus.Outbox.Samples.{
  Row, found, fits, selected, updated, inserted, first_of, table, server, Holds,
}

pub right_status : (q : Query strings seconds) (r : Row) → fits q r ≡ true → r.status ≡ q.status_eq
right_status q r h = ground (arith, text_eq_iff r.status q.status_eq)

pub is_due :
    (q : Query strings seconds) (r : Row)
    → fits q r ≡ true
    → ltb_ℤ q.available_at_lte r.available_at ≡ false
is_due q r h = ground arith

pub room : (q : Query strings seconds) (r : Row) → fits q r ≡ true → 1 ≤ q.limit
room q r h = ground arith

pub found-some : (id : ℕ) (m r : Row) → found id (some m) ≡ some r → ((m.id == id) ≡ true) × (m ≡ r)
found-some id m r h = elim (Bool-cases (m.id == id)) [
  | inl same ↦ (same, some-injective m r (sym (rw same refl) ∙ h))
  | inr differ ↦ absurd (ground arith)
]

pub patches :
    (id : ℕ) (patch : Patch strings seconds) (o : Option Row) (r : Row)
    → found id o ≡ some r
    → found id (updated id patch o) ≡ some (patched strings seconds patch r)
patches id patch none r h = absurd (cc)
patches id patch (some m) r h =
    let (here, same) = found-some id m r h in
    rw (here, here) (ap (λ n. some (patched strings seconds patch n)) same)

pub leaves :
    (id other : ℕ) (patch : Patch strings seconds) (o : Option Row)
    → id ≢ other
    → found other (updated id patch o) ≡ found other o
leaves id other patch none n = refl
leaves id other patch (some m) n = elim (Bool-cases (m.id == id)) [
  | inl same ↦ let apart : (m.id == other) ≡ false = ground arith in rw (same, apart) refl
  | inr differ ↦ rw differ refl
]

-- What holds of no row and of a row that passes the filters holds of what is selected.
pub selected_cases :
    (P : List Row → Type 0) (q : Query strings seconds) (o : Option Row) {rows : List Row}
    → Path (Result (List Row) Text) (ok (selected q o)) (ok rows)
    → P []
    → ((r : Row) → o ≡ some r → fits q r ≡ true → P (r ∷ []))
    → P rows
selected_cases P q o h nil one = subst P (picked h) (chosen o one)
  where
    picked : {a b : List Row} → Path (Result (List Row) Text) (ok a) (ok b) → a ≡ b
    picked h = ground arith

    chosen :
        (o : Option Row)
        → ((r : Row) → o ≡ some r → fits q r ≡ true → P (r ∷ []))
        → P (selected q o)
    chosen none one = nil
    chosen (some r) one = elim (Bool-cases (fits q r)) [
      | inl passes ↦ rw passes (one r refl passes)
      | inr fails ↦ rw fails nil
    ]

pub found_here : (r : Row) → found r.id (some r) ≡ some r
found_here r = ground (arith)

passing :
    (q : Query strings seconds) (r : Row)
    → 1 ≤ q.limit
    → r.status ≡ q.status_eq
    → ltb_ℤ q.available_at_lte r.available_at ≡ false
    → fits q r ≡ true
passing q r room status due = ground (arith, text_eq_iff r.status q.status_eq)

held_row : (o : Option Row) (r : Row) → found r.id o ≡ some r → o ≡ some r
held_row none r h = absurd (cc)
held_row (some m) r h = ap some (found-some r.id m r h).1

pub complete :
    (q : Query strings seconds) (r : Row) (o : Option Row) {rows : List Row}
    → Path (Result (List Row) Text) (ok (selected q o)) (ok rows)
    → length rows < q.limit
    → found r.id o ≡ some r
    → r.status ≡ q.status_eq
    → ltb_ℤ q.available_at_lte r.available_at ≡ false
    → Any (λ m. m ≡ r) rows
complete q r o {rows = rows} h few held status due =
    let passes = passing q r (omega arith) status due in
    let picked : selected q o ≡ rows = ground arith in
    let only : selected q o ≡ r ∷ [] = rw (held_row o r held, passes) refl in
    subst (Any (λ m. m ≡ r)) (sym only ∙ picked) (inl refl)

pub update_whole :
    (id : ℕ) (patch : Patch strings seconds) (o : Option Row)
    → (found id (updated id patch o) ≡ found id o)
      ⊎ ((r : Row) × (found id o ≡ some r)
          × (found id (updated id patch o) ≡ some (patched strings seconds patch r)))
update_whole id patch none = inl refl
update_whole id patch (some m) = elim (Bool-cases (m.id == id)) [
  | inl same ↦ inr (m, rw same refl, rw (same, same) refl)
  | inr differ ↦ inl (rw (differ, differ) refl)
]

pub insert_held :
    (r : Row) (o : Option Row) → inserted r o ≡ ok tt → found r.id (first_of o r) ≡ some r
insert_held r none h = found_here r
insert_held r (some m) h = absurd (cc)

pub insert_whole :
    (r : Row) (o : Option Row)
    → (found r.id (first_of o r) ≡ found r.id o)
      ⊎ ((found r.id o ≡ none) × (found r.id (first_of o r) ≡ some r))
insert_whole r none = inr (refl, found_here r)
insert_whole r (some m) = inl refl

pub insert_leaves :
    (r : Row) (o : Option Row) (id : ℕ) → r.id ≢ id → found id (first_of o r) ≡ found id o
insert_leaves r none id n = let apart : (r.id == id) ≡ false = ground arith in rw apart refl
insert_leaves r (some m) id n = refl

abbrev pub laws : TableLaws strings seconds table server
laws = record {
  row_of = λ s id. found id s.row;
  Entered = Holds;
  select-held = λ q rows s h.
      selected_cases (All (λ r. found r.id s.row ≡ some r)) q s.row h tt
        (λ r at passes. (ap (found r.id) at ∙ found_here r, tt));
  select-status = λ q rows s h.
      selected_cases (All (λ r. r.status ≡ q.status_eq)) q s.row h tt
        (λ r at passes. (right_status q r passes, tt));
  select-due = λ q rows s h.
      selected_cases (All (λ r. ltb_ℤ q.available_at_lte r.available_at ≡ false)) q s.row h tt
        (λ r at passes. (is_due q r passes, tt));
  select-apart = λ q rows s h.
      selected_cases (λ l. AllApart (map (λ r. r.id) l)) q s.row h tt (λ r at passes. (tt, tt));
  select-limited = λ q rows s h.
      selected_cases (λ l. length l ≤ q.limit) q s.row h (omega arith)
        (λ r at passes. room q r passes);
  select-complete = λ q rows r s h few held status due. complete q r s.row h few held status due;
  select-keeps = λ q id s. refl;
  select-streams = λ q stream event_type payload s h. h;
  update-patches = λ id patch row s h held. patches id patch s.row row held;
  update-apart = λ id other patch s n. leaves id other patch s.row n;
  update-keeps = λ id patch stream event_type payload s h. h;
  update-atomic = λ id patch s. update_whole id patch s.row;
  insert-holds = λ r s h. insert_held r s.row h;
  insert-atomic = λ r s. insert_whole r s.row;
  insert-apart = λ r id s n. insert_leaves r s.row id n;
  insert-streams = λ r stream event_type payload s h. h;
  xadd-enters = λ stream event_type payload id s h. inl refl;
  xadd-keeps = λ stream event_type payload stream' event_type' payload' s h. inr h;
  xadd-row = λ stream event_type payload id s. refl;
}
