-- ===== src/Bus/Audit.antt =====
-- crates/bus/src/audit.rs: the log of changes, with the snapshots before and after each.
mod Sql
mod Table
mod Entries
mod Statements
mod Trail
mod Lookup
mod Examples
use oa_libs.Base.{
  ℕ, min, max, Option, none, some, List, [], ◌∷◌, Result, ok, err, and_then, map_ok, Action,
  continue,
}
use oa_libs.Std.Int.{ℤ, pos}
use oa_libs.Std.Text.{Text, codes}

-- struct ChangeEntry, over the types of JSON values and of instants; an id stands for the 128 bits of a
-- `Uuid`.
pub record ChangeEntry (Value DateTime : Type 0) : Type 0 where
  pub id : ℕ
  pub entity : Text
  pub entity_id : Text
  pub action : Text
  pub before : Option Value
  pub after : Option Value
  pub actor_id : Option ℕ
  pub created_at : DateTime

-- The variants of `sea_orm::Value` that the source binds.
pub data Bound (Value DateTime : Type 0) : Type 0 where
  uuid : Option ℕ → Bound Value DateTime
  string : Option Text → Bound Value DateTime
  json : Option Value → Bound Value DateTime
  big_int : Option ℤ → Bound Value DateTime
  date_time : Option DateTime → Bound Value DateTime

-- What the source uses of sea_orm: statements with bound values, and the columns of a row by their
-- names and the types that the source asks for. An error is its text.
pub record Connection (Value DateTime State : Type 0) : Type 1 where
  pub Row : Type 0
  pub execute_raw : Text → List (Bound Value DateTime) → Action State (Unit {0}) Text
  pub query_all_raw : Text → List (Bound Value DateTime) → Action State (List Row) Text
  pub try_get_uuid : Row → Text → Result ℕ Text
  pub try_get_string : Row → Text → Result Text Text
  pub try_get_json : Row → Text → Result (Option Value) Text
  pub try_get_actor : Row → Text → Result (Option ℕ) Text
  pub try_get_time : Row → Text → Result DateTime Text

abbrev pub insert_sql : Text
insert_sql =
    codes
      "INSERT INTO change_log (id, entity, entity_id, action, before, after, actor_id, created_at) VALUES ($1, $2, $3, $4, $5, $6, $7, $8)"

abbrev pub find_sql : Text
find_sql =
    codes
      "SELECT id, entity, entity_id, action, before, after, actor_id, created_at FROM change_log WHERE id = $1"

abbrev pub list_sql : Text
list_sql =
    codes
      "SELECT id, entity, entity_id, action, before, after, actor_id, created_at FROM change_log WHERE entity = $1 AND entity_id = $2 ORDER BY created_at DESC LIMIT $3"

-- `limit.clamp(1, 200) as i64`.
abbrev pub list_limit : ℕ → ℕ
list_limit limit = min (max limit 1) 200

module _ {Value DateTime State : Type 0} (D : Connection Value DateTime State) where
  open D use {
    Row, execute_raw, query_all_raw, try_get_uuid, try_get_string, try_get_json, try_get_actor,
    try_get_time,
  }

  -- The values that `record` binds.
  unfoldable pub bound_values : ChangeEntry Value DateTime → List (Bound Value DateTime)
  bound_values e =
      uuid (some e.id)
      ∷ string (some e.entity)
      ∷ string (some e.entity_id)
      ∷ string (some e.action)
      ∷ json e.before
      ∷ json e.after
      ∷ uuid e.actor_id
      ∷ date_time (some e.created_at)
      ∷ []

  -- record, with the id that `Uuid::now_v7` gives.
  unfoldable pub record_change :
      ℕ
      → Text
      → Text
      → Text
      → Option Value
      → Option Value
      → Option ℕ
      → DateTime
      → Action State ℕ Text
  unfolding bound_values
  record_change id entity entity_id action before after actor_id now s =
      let e : ChangeEntry Value DateTime = record {
        id = id;
        entity = entity;
        entity_id = entity_id;
        action = action;
        before = before;
        after = after;
        actor_id = actor_id;
        created_at = now;
      } in
      continue (execute_raw insert_sql (bound_values e) s) (λ _ t. (ok id, t))

  -- entry_from_row.
  unfoldable pub entry_from_row : Row → Result (ChangeEntry Value DateTime) Text
  entry_from_row row = and_then (try_get_uuid row (codes "id")) λ id.
      and_then (try_get_string row (codes "entity")) λ entity.
        and_then (try_get_string row (codes "entity_id")) λ entity_id.
          and_then (try_get_string row (codes "action")) λ action.
            and_then (try_get_json row (codes "before")) λ before.
              and_then (try_get_json row (codes "after")) λ after.
                and_then (try_get_actor row (codes "actor_id")) λ actor_id.
                  and_then (try_get_time row (codes "created_at")) λ created_at. ok (record {
                    id = id;
                    entity = entity;
                    entity_id = entity_id;
                    action = action;
                    before = before;
                    after = after;
                    actor_id = actor_id;
                    created_at = created_at;
                  })

  -- `rows.first().map(entry_from_row).transpose()`.
  unfoldable pub first_entry : List Row → Result (Option (ChangeEntry Value DateTime)) Text
  unfolding entry_from_row
  first_entry [] = ok none
  first_entry (row ∷ rows) = map_ok some (entry_from_row row)

  -- find.
  unfoldable pub find_change : ℕ → Action State (Option (ChangeEntry Value DateTime)) Text
  unfolding first_entry
  find_change id s =
      continue (query_all_raw find_sql (uuid (some id) ∷ []) s) (λ rows t. (first_entry rows, t))

  -- `rows.iter().map(entry_from_row).collect()`, which stops at the first error.
  unfoldable pub all_entries : List Row → Result (List (ChangeEntry Value DateTime)) Text
  unfolding entry_from_row
  all_entries [] = ok []
  all_entries (row ∷ rows) =
      and_then (entry_from_row row) λ e. and_then (all_entries rows) λ es. ok (e ∷ es)

  -- list_for.
  unfoldable pub list_for : Text → Text → ℕ → Action State (List (ChangeEntry Value DateTime)) Text
  unfolding all_entries
  list_for entity entity_id limit s =
      continue
        (query_all_raw list_sql
          (string (some entity)
            ∷ string (some entity_id)
            ∷ big_int (some (pos (list_limit limit)))
            ∷ [])
          s)
        (λ rows t. (all_entries rows, t))
