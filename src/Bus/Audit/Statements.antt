-- ===== src/Bus/Audit/Statements.antt =====
-- What the three statements of crates/bus/src/audit.rs say.
use oa_libs.Base.{ℕ, ◌≡◌, refl, none, some, List, [], ◌∷◌}
use oa_libs.Std.Text.{codes, text_eq}
use oa_libs.Bus.Audit.{
  ChangeEntry, uuid, string, json, date_time, Connection, insert_sql, find_sql, list_sql,
  bound_values,
}
use oa_libs.Bus.Audit.Sql.{Selection, descending, insert, select, parse_sql}
use oa_libs.Bus.Audit.Table.{Record, cell, assigned}
use oa_libs.Bus.Audit.Entries.{all_columns, Represents}

abbrev pub by_id : Selection
by_id = record {
  columns = all_columns;
  table = codes "change_log";
  conditions = (codes "id", 1) ∷ [];
  sorting = none;
  limit = none;
}

pub find-parsed : parse_sql find_sql ≡ some (select by_id)
unfolding parse_sql
find-parsed = refl

abbrev pub of_entity : Selection
of_entity = record {
  columns = all_columns;
  table = codes "change_log";
  conditions = (codes "entity", 1) ∷ (codes "entity_id", 2) ∷ [];
  sorting = some (descending (codes "created_at"));
  limit = some 3;
}

pub list-parsed : parse_sql list_sql ≡ some (select of_entity)
unfolding parse_sql
list-parsed = refl

module _ {Value DateTime State : Type 0} (D : Connection Value DateTime State) where
  -- The row that the statement of `record` makes.
  pub made : ChangeEntry Value DateTime → Record Value DateTime
  made e =
      (codes "id", uuid (some e.id))
      ∷ (codes "entity", string (some e.entity))
      ∷ (codes "entity_id", string (some e.entity_id))
      ∷ (codes "action", string (some e.action))
      ∷ (codes "before", json e.before)
      ∷ (codes "after", json e.after)
      ∷ (codes "actor_id", uuid e.actor_id)
      ∷ (codes "created_at", date_time (some e.created_at))
      ∷ []

  pub made-Represents : (e : ChangeEntry Value DateTime) → Represents (made e) e
  unfolding made cell text_eq
  made-Represents e = record {
    id = refl;
    entity = refl;
    entity_id = refl;
    action = refl;
    before = refl;
    after = refl;
    actor_id = refl;
    created_at = refl;
  }

  -- The parameters stand at the columns that they are named after.
  pub insert-made :
      (e : ChangeEntry Value DateTime)
      → (numbers : List ℕ) × (parse_sql insert_sql
          ≡ some (insert (codes "change_log") all_columns numbers))
        × (assigned Value DateTime all_columns numbers (bound_values D e) ≡ some (made e))
  unfolding parse_sql bound_values made
  insert-made e = (1 ∷ 2 ∷ 3 ∷ 4 ∷ 5 ∷ 6 ∷ 7 ∷ 8 ∷ [], refl, refl)
