-- ===== src/Bus/Audit/Examples/Laws.antt =====
-- The table with at most one row behaves as documented.
use mathlib.Core.Option.{some-injective}
use oa_libs.Base.{
  inl, inr, ℕ, ◌≡◌, ◌↔◌, refl, subst, ◌∙◌, sym, ap, true, Bool-cases, ◌&&◌, Option, none, some,
  List, [], ◌∷◌, All, Any, length, Result, ok, arith,
}
use oa_libs.Std.Int.{pos}
use oa_libs.Std.Text.{Text, codes}
use oa_libs.Std.Text.Laws.{text_eq_iff}
use oa_libs.Bus.Audit.{uuid, string, json, big_int, date_time}
use oa_libs.Bus.Audit.Sql.{Sorting, ascending, descending, Selection, insert}
use oa_libs.Bus.Audit.Table.{
  cell, argument, assigned, Equals, Meets, Within, Room, IsWithin, HasRoom, InOrder, Shows, ShowAll,
  TrailLaws,
}
use oa_libs.Bus.Audit.Examples.Table.{
  Cell, Rec, older, executed, equals, meets, allowed, roomy, picked, queried, as_uuid, as_string,
  as_json, as_actor, as_time, table,
}

equals_iff : (v w : Option Cell) → (equals v w ≡ true) ↔ Equals Text ℕ v w
equals_iff (some (uuid (some a))) (some (uuid (some b))) = ground arith
equals_iff (some (string (some a))) (some (string (some b))) = text_eq_iff a b
equals_iff _ _ = (λ h. absurd (cc), λ h. absurd h)

meets_iff :
    (conditions : List (Text × ℕ)) (values : List Cell) (r : Rec)
    → (meets conditions values r ≡ true) ↔ Meets Text ℕ conditions values r
meets_iff [] values r = (λ h. tt, λ h. refl)
meets_iff (c ∷ conditions) values r =
    let (sound, full) = equals_iff (cell Text ℕ c.0 r) (argument Text ℕ values c.1) in
    let (sound', full') = meets_iff conditions values r in
    (λ h. (sound (ground arith), sound' (ground arith)), λ h. rw (full h.0, full' h.1) refl)

uuid_iff : (v : Option Cell) (n : ℕ) → (as_uuid v ≡ ok n) ↔ (v ≡ some (uuid (some n)))
uuid_iff (some (uuid (some m))) n = (λ h. ground arith, λ h. ground arith)
uuid_iff _ n = (λ h. absurd (cc), λ h. absurd (cc))

string_iff : (v : Option Cell) (t : Text) → (as_string v ≡ ok t) ↔ (v ≡ some (string (some t)))
string_iff (some (string (some u))) t = (λ h. ground arith, λ h. ground arith)
string_iff _ t = (λ h. absurd (cc), λ h. absurd (cc))

json_iff : (v : Option Cell) (j : Option Text) → (as_json v ≡ ok j) ↔ (v ≡ some (json j))
json_iff (some (json k)) j = (λ h. ground arith, λ h. ground arith)
json_iff _ j = (λ h. absurd (cc), λ h. absurd (cc))

actor_iff : (v : Option Cell) (n : Option ℕ) → (as_actor v ≡ ok n) ↔ (v ≡ some (uuid n))
actor_iff (some (uuid m)) n = (λ h. ground arith, λ h. ground arith)
actor_iff _ n = (λ h. absurd (cc), λ h. absurd (cc))

time_iff : (v : Option Cell) (t : ℕ) → (as_time v ≡ ok t) ↔ (v ≡ some (date_time (some t)))
time_iff (some (date_time (some u))) t = (λ h. ground arith, λ h. ground arith)
time_iff _ t = (λ h. absurd (cc), λ h. absurd (cc))

column-Shows : (row : Rec) (c : Text) → Shows table row c (cell Text ℕ c row)
column-Shows row c = record {
  as_uuid = uuid_iff (cell Text ℕ c row);
  as_string = string_iff (cell Text ℕ c row);
  as_json = json_iff (cell Text ℕ c row);
  as_actor = actor_iff (cell Text ℕ c row);
  as_time = time_iff (cell Text ℕ c row);
}

every_column-Shows :
    (columns : List Text) (row : Rec) → All (λ c. Shows table row c (cell Text ℕ c row)) columns
every_column-Shows [] row = tt
every_column-Shows (c ∷ columns) row = (column-Shows row c, every_column-Shows columns row)

one-IsWithin :
    (limit : Option ℕ) (values : List Cell)
    → roomy limit values ≡ true
    → IsWithin Text ℕ limit values 1
one-IsWithin none values h = tt
one-IsWithin (some k) values h = go (argument Text ℕ values k) h
  where
    go : (v : Option Cell) → allowed v ≡ true → Within Text ℕ v 1
    go (some (big_int (some (pos n)))) h = ground arith
    go _ h = absurd (cc)

none-IsWithin : (limit : Option ℕ) (values : List Cell) → IsWithin Text ℕ limit values 0
none-IsWithin none values = tt
none-IsWithin (some k) values = go (argument Text ℕ values k)
  where
    go : (v : Option Cell) → Within Text ℕ v 0
    go (some (big_int (some (pos n)))) = omega arith
    go _ = tt

has_room :
    (limit : Option ℕ) (values : List Cell)
    → HasRoom Text ℕ limit values 0
    → roomy limit values ≡ true
has_room none values h = refl
has_room (some k) values h = go (argument Text ℕ values k) h
  where
    go : (v : Option Cell) → Room Text ℕ v 0 → allowed v ≡ true
    go (some (big_int (some (pos n)))) h = ground arith
    go _ h = absurd h

one_in_order : (sorting : Option Sorting) (r : Rec) → InOrder Text ℕ older sorting (r ∷ [])
one_in_order none r = tt
one_in_order (some (ascending c)) r = (tt, tt)
one_in_order (some (descending c)) r = (tt, tt)

abbrev Answers : Selection → List Cell → List Rec → Option Rec → Type 0
Answers q values rows s =
    (rs : List Rec) × ShowAll table q.columns rows rs
    × All (λ r. s ≡ some r) rs
    × All (Meets Text ℕ q.conditions values) rs
    × InOrder Text ℕ older q.sorting rs
    × IsWithin Text ℕ q.limit values (length rs)
    × ((r : Rec)
        → s ≡ some r
        → Meets Text ℕ q.conditions values r
        → HasRoom Text ℕ q.limit values (length rs)
        → Any (λ m. m ≡ r) rs)

answers :
    (q : Selection) (values : List Cell) (s : Option Rec) → Answers q values (picked q values s) s
answers q values none =
    ([], tt, tt, tt, tt, none-IsWithin q.limit values, λ r held passes room. absurd (cc))
answers q values (some r) =
    elim (Bool-cases (meets q.conditions values r && roomy q.limit values)) [
      | inl passes ↦ rw passes (
        r ∷ [],
        (every_column-Shows q.columns r, tt),
        (refl, tt),
        ((meets_iff q.conditions values r).0 (ground arith), tt),
        one_in_order q.sorting r,
        one-IsWithin q.limit values (ground arith),
        λ m held met room. inl (some-injective r m held),
      )
      | inr fails ↦ rw fails (
        [],
        tt,
        tt,
        tt,
        tt,
        none-IsWithin q.limit values,
        λ m held met room.
            let e = some-injective r m held in
            let met' : meets q.conditions values r ≡ true =
              (meets_iff q.conditions values r).1
                (subst (Meets Text ℕ q.conditions values) (sym e) met) in
            let open_ = has_room q.limit values room in absurd (ground arith),
      )
    ]

same_rows : (a b : List Rec) → Path (Result (List Rec) Text) (ok a) (ok b) → a ≡ b
same_rows a b h = ground arith

executed-holds :
    (columns : List Text) (numbers : List ℕ) (values : List Cell) (r : Rec) (s : Option Rec)
    → assigned Text ℕ columns numbers values ≡ some r
    → (executed (some (insert (codes "change_log") columns numbers)) values s).0 ≡ ok tt
    → (executed (some (insert (codes "change_log") columns numbers)) values s).1 ≡ some r
executed-holds columns numbers values r none a h = rw a refl
executed-holds columns numbers values r (some m) a h = absurd (cc)

pub laws : TrailLaws table
laws = record {
  Holds = λ s r. s ≡ some r;
  before = older;
  insert-holds = λ sql columns numbers values r s parsed a h.
      ap (λ p. (executed p values s).1) parsed
      ∙ executed-holds columns numbers values r s a
          (sym (ap (λ p. (executed p values s).0) parsed) ∙ h);
  select-answers = λ sql q values rows s parsed named keys h.
      subst (λ l. Answers q values l s)
        (same_rows (picked q values s) rows (sym (ap (λ p. (queried p values s).0) parsed) ∙ h))
        (answers q values s);
  key-unique = λ r m s held held' same. some-injective r m (sym held ∙ held');
}
