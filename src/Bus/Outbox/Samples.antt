-- ===== src/Bus/Outbox/Samples.antt =====
-- A table with at most one row, and a server that takes every event.
pub mod Laws
pub mod Locked
pub mod Ordered
pub mod Reader
use oa_libs.Base.{
  ◌<◌, err, ◌⊎◌, sym, subst, inr, inl, ◌∙◌, Bool-cases, ap, ℕ, ◌≤◌, ◌==◌, ◌≡◌, ◌≢◌, ◌&&◌, not, refl,
  true, false, Bool, Option, none, some, List, [], ◌∷◌, map, All, Any, length, Result, ok,
  if◌then◌else◌, ltb, arith,
}
use oa_libs.Std.Int.{pos, ltb_ℤ}
use mathlib.Core.Option.{some-injective}
use oa_libs.Std.Text.Laws.{text_eq_iff}
use oa_libs.Deps.Samples.{seconds}
use oa_libs.Std.Text.{Text, codes, text_eq}
use oa_libs.Bus.Client.{Redis}
use oa_libs.Bus.Samples.{strings, wire, nil_reply}
use oa_libs.Bus.Outbox.{Model, Patch, Query, Database}
use oa_libs.Bus.Outbox.Table.{TableLaws, patched, AllApart}

abbrev pub Row : Type 0
Row = Model strings seconds

pub record Entry : Type 0 where
  pub stream : Text
  pub event_type : Text
  pub payload : Text

pub record World : Type 0 where
  pub row : Option Row
  pub entries : List Entry

abbrev pub found : ℕ → Option Row → Option Row
found id none = none
found id (some r) = if r.id == id then some r else none

abbrev pub fits : Query strings seconds → Row → Bool
fits q r =
    text_eq r.status q.status_eq && not (ltb_ℤ q.available_at_lte r.available_at) && ltb 0 q.limit

abbrev pub selected : Query strings seconds → Option Row → List Row
selected q none = []
selected q (some r) = if fits q r then r ∷ [] else []

abbrev pub updated : ℕ → Patch strings seconds → Option Row → Option Row
updated id patch none = none
updated id patch (some r) = if r.id == id then some (patched strings seconds patch r) else some r

-- The table takes a row only where it is empty.
abbrev pub inserted : Row → Option Row → Result (Unit {0}) Text
inserted r none = ok tt
inserted r (some m) = err (codes "full")

abbrev pub first_of : Option Row → Row → Option Row
first_of none r = some r
first_of (some m) r = some m

abbrev pub table : Database strings seconds World
table = record {
  insert = λ r s. (inserted r s.row, record { row = first_of s.row r; entries = s.entries });
  select = λ q s. (ok (selected q s.row), s);
  update = λ id patch s. (ok tt, record { row = updated id patch s.row; entries = s.entries });
}

-- The entry that the arguments of XADD append.
abbrev pub appended : List Text → List Entry → List Entry
appended (c ∷ stream ∷ star ∷ f ∷ event_type ∷ g ∷ payload ∷ []) entries =
    record { stream = stream; event_type = event_type; payload = payload } ∷ entries
appended _ entries = entries

abbrev pub server : Redis strings wire World
server = record {
  query_string =
      λ args s. (ok (codes "1-0"), record { row = s.row; entries = appended args s.entries });
  query_unit = λ args s. (ok tt, s);
  query_int = λ args s. (ok (pos 1), s);
  ping = λ s. (ok (codes "PONG"), s);
  query_value = λ args s. (ok nil_reply, s);
  to_string = λ v. ok v;
}

abbrev pub Holds : World → Text → Text → Text → Type 0
Holds s stream event_type payload =
    Any (λ e. e ≡ record { stream = stream; event_type = event_type; payload = payload }) s.entries
