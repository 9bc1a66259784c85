-- ===== src/Bus/Audit/Examples.antt =====
-- The log of changes over a table with at most one row that reads the texts of its statements.
mod Table
mod Laws
use oa_libs.Base.{
  ℕ, ◌≤◌, ◌<◌, max, ◌≡◌, ◌≢◌, ◌⊎◌, refl, Option, none, some, [], ◌∷◌, All, Any, length, ok,
}
use oa_libs.Std.Text.{Text, codes, text_eq}
use oa_libs.Bus.Audit.{uuid, string, json, date_time, find_change, list_for}
use oa_libs.Bus.Audit.Sql.{parse_sql}
use oa_libs.Bus.Audit.Table.{cell}
use oa_libs.Bus.Audit.Entries.{Represents, NewestFirst}
use oa_libs.Bus.Audit.Lookup.{find_change_exact}
use oa_libs.Bus.Audit.Trail.{list_for_exact}
use oa_libs.Bus.Audit.Examples.Table.{Entry, Rec, table}
use oa_libs.Bus.Audit.Examples.Laws.{laws}

abbrev change : Entry
change = record {
  id = 7;
  entity = codes "task";
  entity_id = codes "12";
  action = codes "move";
  before = some (codes "todo");
  after = some (codes "done");
  actor_id = none;
  created_at = 90;
}

abbrev change_row : Rec
change_row =
    (codes "id", uuid (some 7))
    ∷ (codes "entity", string (some (codes "task")))
    ∷ (codes "entity_id", string (some (codes "12")))
    ∷ (codes "action", string (some (codes "move")))
    ∷ (codes "before", json (some (codes "todo")))
    ∷ (codes "after", json (some (codes "done")))
    ∷ (codes "actor_id", uuid none)
    ∷ (codes "created_at", date_time (some 90))
    ∷ []

found_then : (find_change table 7 (some change_row)).0 ≡ ok (some change)
unfolding find_change parse_sql cell text_eq
found_then = refl

listed_there :
    (list_for table (codes "task") (codes "12") 500 (some change_row)).0 ≡ ok (change ∷ [])
unfolding list_for parse_sql cell text_eq
listed_there = refl

list_for_exact_example :
    (length (change ∷ []) ≤ 200)
    × (length (change ∷ []) ≤ max 500 1)
    × All
        (λ e.
          (e.entity ≡ codes "task")
          × (e.entity_id ≡ codes "12")
          × ((r : Rec) × laws.Holds (some change_row) r × Represents r e))
        (change ∷ [])
    × NewestFirst laws.before (change ∷ [])
    × ((r : Rec) (e : Entry)
        → length (change ∷ []) < 200
        → length (change ∷ []) < max 500 1
        → laws.Holds (some change_row) r
        → Represents r e
        → e.entity ≡ codes "task"
        → e.entity_id ≡ codes "12"
        → Any (λ f. f ≡ e) (change ∷ []))
list_for_exact_example =
    list_for_exact table laws (codes "task") (codes "12") 500 (some change_row) (change ∷ [])
      listed_there

find_change_exact_example :
    ((Path (Option Entry) (some change) none)
      × ((r : Rec)
          → laws.Holds (some change_row) r
          → cell Text ℕ (codes "id") r ≢ some (uuid (some 7))))
    ⊎ ((e : Entry) × (r : Rec) × (some change ≡ some e)
        × (e.id ≡ 7)
        × laws.Holds (some change_row) r
        × Represents r e)
find_change_exact_example =
    find_change_exact table laws 7 (some change_row) (some change) found_then
