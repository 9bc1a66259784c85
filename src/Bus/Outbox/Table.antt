-- ===== src/Bus/Outbox/Table.antt =====
-- What the outbox relies on in the database and in Redis: the laws of the table, and of XADD.
use oa_libs.Base.{
  Any, ◌<◌, false, map, ◌∷◌, ℕ, ◌≤◌, ◌≡◌, ◌≢◌, ◌⊎◌, Option, none, some, List, [], All, length, ok,
}
use oa_libs.Deps.{Json, Chrono}
use oa_libs.Std.Text.{Text}
use oa_libs.Bus.Message.{Wire}
use oa_libs.Bus.Client.{Redis, xadd}
use oa_libs.Bus.Outbox.{Model, Patch, Query, Database}

-- `Option` of what an update sets a column to, over what the column holds.
abbrev pub set_or : {A : Type 0} → A → Option A → A
set_or old none = old
set_or old (some new) = new

-- No two entries of the list are the same.
abbrev pub AllApart : List ℕ → Type 0
AllApart [] = Unit
AllApart (n ∷ ns) = All (λ m. n ≢ m) ns × AllApart ns

module _ (J : Json) (C : Chrono) where
  -- A row after an update.
  abbrev pub patched : Patch J C → Model J C → Model J C
  patched patch row = record {
    id = row.id;
    event_type = row.event_type;
    payload = row.payload;
    status = set_or row.status patch.status;
    attempts = set_or row.attempts patch.attempts;
    available_at = set_or row.available_at patch.available_at;
    last_error = set_or row.last_error patch.last_error;
    created_at = row.created_at;
    sent_at = set_or row.sent_at patch.sent_at;
  }

  -- The documented behaviour of the calls, over the row that the table holds for an id and the entries
  -- that a stream holds.
  pub record TableLaws {State : Type 0} {W : Wire J.Value} (D : Database J C State)
      (R : Redis J W State) : Type 1 where
    pub row_of : State → ℕ → Option (Model J C)
    pub Entered : State → Text → Text → Text → Type 0
    -- The rows of a query are rows of the table that pass its filters, each once, and at most as many
    -- as the limit.
    pub select-held :
        (q : Query J C) (rows : List (Model J C)) (s : State)
        → (D.select q s).0 ≡ ok rows
        → All (λ r. row_of (D.select q s).1 r.id ≡ some r) rows
    pub select-status :
        (q : Query J C) (rows : List (Model J C)) (s : State)
        → (D.select q s).0 ≡ ok rows
        → All (λ r. r.status ≡ q.status_eq) rows
    pub select-due :
        (q : Query J C) (rows : List (Model J C)) (s : State)
        → (D.select q s).0 ≡ ok rows
        → All (λ r. C.before q.available_at_lte r.available_at ≡ false) rows
    pub select-apart :
        (q : Query J C) (rows : List (Model J C)) (s : State)
        → (D.select q s).0 ≡ ok rows
        → AllApart (map (λ r. r.id) rows)
    pub select-limited :
        (q : Query J C) (rows : List (Model J C)) (s : State)
        → (D.select q s).0 ≡ ok rows
        → length rows ≤ q.limit
    -- Where the limit is not reached, the query has every row that passes the filters.
    pub select-complete :
        (q : Query J C) (rows : List (Model J C)) (row : Model J C) (s : State)
        → (D.select q s).0 ≡ ok rows
        → length rows < q.limit
        → row_of s row.id ≡ some row
        → row.status ≡ q.status_eq
        → C.before q.available_at_lte row.available_at ≡ false
        → Any (λ r. r ≡ row) rows
    pub select-keeps :
        (q : Query J C) (id : ℕ) (s : State) → row_of (D.select q s).1 id ≡ row_of s id
    pub select-streams :
        (q : Query J C) (stream event_type payload : Text) (s : State)
        → Entered s stream event_type payload
        → Entered (D.select q s).1 stream event_type payload
    -- An update sets the columns of the row with the id, and changes no other row and no stream.
    pub update-patches :
        (id : ℕ) (patch : Patch J C) (row : Model J C) (s : State)
        → (D.update id patch s).0 ≡ ok tt
        → row_of s id ≡ some row
        → row_of (D.update id patch s).1 id ≡ some (patched patch row)
    pub update-apart :
        (id other : ℕ) (patch : Patch J C) (s : State)
        → id ≢ other
        → row_of (D.update id patch s).1 other ≡ row_of s other
    pub update-keeps :
        (id : ℕ) (patch : Patch J C) (stream event_type payload : Text) (s : State)
        → Entered s stream event_type payload
        → Entered (D.update id patch s).1 stream event_type payload
    -- An update that fails may have come through all the same, but never by half.
    pub update-atomic :
        (id : ℕ) (patch : Patch J C) (s : State)
        → (row_of (D.update id patch s).1 id ≡ row_of s id)
          ⊎ ((row : Model J C) × (row_of s id ≡ some row)
              × (row_of (D.update id patch s).1 id ≡ some (patched patch row)))
    -- An insert adds its row or nothing; it never replaces a row with the same primary key.
    pub insert-holds :
        (row : Model J C) (s : State)
        → (D.insert row s).0 ≡ ok tt
        → row_of (D.insert row s).1 row.id ≡ some row
    pub insert-atomic :
        (row : Model J C) (s : State)
        → (row_of (D.insert row s).1 row.id ≡ row_of s row.id)
          ⊎ ((row_of s row.id ≡ none) × (row_of (D.insert row s).1 row.id ≡ some row))
    pub insert-apart :
        (row : Model J C) (id : ℕ) (s : State)
        → row.id ≢ id
        → row_of (D.insert row s).1 id ≡ row_of s id
    pub insert-streams :
        (row : Model J C) (stream event_type payload : Text) (s : State)
        → Entered s stream event_type payload
        → Entered (D.insert row s).1 stream event_type payload
    -- XADD that answers has appended the entry; it removes none and does not touch the table.
    pub xadd-enters :
        (stream event_type payload id : Text) (s : State)
        → (R.query_string (xadd stream event_type payload) s).0 ≡ ok id
        → Entered (R.query_string (xadd stream event_type payload) s).1 stream event_type payload
    pub xadd-keeps :
        (stream event_type payload stream' event_type' payload' : Text) (s : State)
        → Entered s stream' event_type' payload'
        → Entered (R.query_string (xadd stream event_type payload) s).1 stream' event_type' payload'
    pub xadd-row :
        (stream event_type payload : Text) (id : ℕ) (s : State)
        → row_of (R.query_string (xadd stream event_type payload) s).1 id ≡ row_of s id
