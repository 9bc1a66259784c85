-- ===== src/Bus/Outbox/Log.antt =====
-- The log of the streams: what the outbox relies on in the order of a query and in XADD.
use oa_libs.Base.{ℕ, ◌<◌, ◌≤◌, ◌≢◌, false, arith, ◌≡◌, ◌⊎◌, List, [], ◌∷◌, ◌++◌, map, All, ok}
use oa_libs.Deps.{Json, Chrono}
use oa_libs.Std.Text.{Text}
use oa_libs.Bus.Message.{Wire}
use oa_libs.Bus.Client.{Redis, xadd}
use oa_libs.Bus.Outbox.{Model, Patch, Query, Database}
use oa_libs.Bus.Outbox.Columns.{Column, OrderBy, unordered, asc, desc}
use oa_libs.Bus.Outbox.Table.{AllApart}

-- The entries come one behind the other.
abbrev pub Ascending : List ℕ → Type 0
Ascending [] = Unit
Ascending (n ∷ ns) = All (λ m. n < m) ns × Ascending ns

ne-lt : (a b : ℕ) → a ≤ b → a ≢ b → a < b
ne-lt a b low apart = ground arith

-- An entry of a stream: the stream, the event type and the payload.
pub record Logging : Type 0 where
  pub stream : Text
  pub event_type : Text
  pub payload : Text

module _ (J : Json) (C : Chrono) {State : Type 0} {W : Wire J.Value} (D : Database J C State)
    (R : Redis J W State) where
  -- The one row does not come behind the other in the order of the column; for the columns that hold an
  -- id or an instant.
  abbrev pub NotAfter : Column → Model J C → Model J C → Type 0
  NotAfter Column.id r m = r.id ≤ m.id
  NotAfter Column.available_at r m = C.before m.available_at r.available_at ≡ false
  NotAfter Column.created_at r m = C.before m.created_at r.created_at ≡ false
  NotAfter _ r m = Unit

  -- The rows stand in the order that was asked for.
  abbrev pub InOrder : OrderBy → List (Model J C) → Type 0
  InOrder order [] = Unit
  InOrder unordered (r ∷ rows) = Unit
  InOrder (asc c) (r ∷ rows) = All (λ m. NotAfter c r m) rows × InOrder (asc c) rows
  InOrder (desc c) (r ∷ rows) = All (λ m. NotAfter c m r) rows × InOrder (desc c) rows

  -- The documented order: a query answers in the order that it asks for, and XADD appends one entry, or
  -- nothing; where it is answered by an error, one of the two. The table's operations leave the log.
  pub record LogLaws : Type 0 where
    pub log : State → List Logging
    pub select-ordered :
        (q : Query J C) (rows : List (Model J C)) (s : State)
        → (D.select q s).0 ≡ ok rows
        → InOrder q.order_by rows
    pub select-log : (q : Query J C) (s : State) → log (D.select q s).1 ≡ log s
    pub update-log : (id : ℕ) (patch : Patch J C) (s : State) → log (D.update id patch s).1 ≡ log s
    pub xadd-log :
        (stream event_type payload : Text) (s : State)
        → (log (R.query_string (xadd stream event_type payload) s).1 ≡ log s)
          ⊎ (log (R.query_string (xadd stream event_type payload) s).1
              ≡ log s
                ++ record { stream = stream; event_type = event_type; payload = payload } ∷ [])

  first_apart :
      (row : Model J C) (rows : List (Model J C))
      → All (λ m. row.id ≤ m.id) rows
      → All (λ n. row.id ≢ n) (map (λ r. r.id) rows)
      → All (λ n. row.id < n) (map (λ r. r.id) rows)
  first_apart row [] low apart = tt
  first_apart row (m ∷ rows) low apart =
      (ne-lt row.id m.id low.0 apart.0, first_apart row rows low.1 apart.1)

  -- Rows by ascending id, each once, have ids that ascend strictly.
  pub ordered_apart :
      (rows : List (Model J C))
      → InOrder (asc Column.id) rows
      → AllApart (map (λ r. r.id) rows)
      → Ascending (map (λ r. r.id) rows)
  ordered_apart [] order apart = tt
  ordered_apart (row ∷ rows) order apart =
      (first_apart row rows order.0 apart.0, ordered_apart rows order.1 apart.1)
