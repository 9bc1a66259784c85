-- ===== src/Bus/Audit/Table.antt =====
-- What the log of changes relies on in the database: its documented answer to a statement, from what the
-- text of the statement says.
use oa_libs.Base.{
  ℕ, ◌-◌, ◌≤◌, ◌<◌, ◌≡◌, ◌↔◌, Bool, false, Option, none, some, List, [], ◌∷◌, All, Any, length,
  get_elem?, ok, if◌then◌else◌,
}
use oa_libs.Std.Int.{pos}
use oa_libs.Std.Text.{Text, codes, text_eq}
use oa_libs.Bus.Audit.{Bound, uuid, string, json, big_int, date_time, Connection}
use oa_libs.Bus.Audit.Sql.{
  Sorting, ascending, descending, Selection, insert, select, maybe_then, parse_sql,
}

module _ (Value DateTime : Type 0) where
  -- A row of the table: its columns with what they hold.
  abbrev pub Record : Type 0
  Record = List (Text × Bound Value DateTime)

  unfoldable pub cell : Text → Record → Option (Bound Value DateTime)
  unfolding text_eq
  cell c [] = none
  cell c (d ∷ r) = let rest = cell c r in if text_eq d.0 c then some d.1 else rest

  -- The value that is bound to a parameter; the first has the number 1.
  abbrev pub argument : List (Bound Value DateTime) → ℕ → Option (Bound Value DateTime)
  argument values n = get_elem? values (n - 1)

  -- The row that the columns and the parameters of an INSERT make.
  abbrev pub assigned : List Text → List ℕ → List (Bound Value DateTime) → Option Record
  assigned [] [] values = some []
  assigned (c ∷ cs) (n ∷ ns) values =
      maybe_then (argument values n) λ v. maybe_then (assigned cs ns values) λ r. some ((c, v) ∷ r)
  assigned _ _ values = none

  -- `=` on ids and on texts, the two kinds that the conditions compare. NULL equals nothing.
  abbrev pub Equals : Option (Bound Value DateTime) → Option (Bound Value DateTime) → Type 0
  Equals (some (uuid (some a))) (some (uuid (some b))) = a ≡ b
  Equals (some (string (some a))) (some (string (some b))) = a ≡ b
  Equals _ _ = ⊥

  abbrev pub IsKey : Option (Bound Value DateTime) → Type 0
  IsKey (some (uuid (some a))) = Unit
  IsKey (some (string (some a))) = Unit
  IsKey _ = ⊥

  -- The row passes the conditions.
  abbrev pub Meets : List (Text × ℕ) → List (Bound Value DateTime) → Record → Type 0
  Meets conditions values r = All (λ c. Equals (cell c.0 r) (argument values c.1)) conditions

  -- LIMIT: no more than the parameter says.
  abbrev pub Within : Option (Bound Value DateTime) → ℕ → Type 0
  Within (some (big_int (some (pos most)))) n = n ≤ most
  Within _ n = Unit

  abbrev pub IsWithin : Option ℕ → List (Bound Value DateTime) → ℕ → Type 0
  IsWithin none values n = Unit
  IsWithin (some k) values n = Within (argument values k) n

  -- Fewer rows than LIMIT allows.
  abbrev pub Room : Option (Bound Value DateTime) → ℕ → Type 0
  Room (some (big_int (some (pos most)))) n = n < most
  Room _ n = ⊥

  abbrev pub HasRoom : Option ℕ → List (Bound Value DateTime) → ℕ → Type 0
  HasRoom none values n = Unit
  HasRoom (some k) values n = Room (argument values k) n

  module _ (before : DateTime → DateTime → Bool) where
    -- The one does not come after the other; for instants, the kind that the source sorts by.
    abbrev pub NotAfter : Option (Bound Value DateTime) → Option (Bound Value DateTime) → Type 0
    NotAfter (some (date_time (some t))) (some (date_time (some u))) = before u t ≡ false
    NotAfter _ _ = Unit

    abbrev pub InOrder : Option Sorting → List Record → Type 0
    InOrder sorting [] = Unit
    InOrder none (r ∷ rs) = Unit
    InOrder (some (ascending c)) (r ∷ rs) =
        All (λ m. NotAfter (cell c r) (cell c m)) rs × InOrder (some (ascending c)) rs
    InOrder (some (descending c)) (r ∷ rs) =
        All (λ m. NotAfter (cell c m) (cell c r)) rs × InOrder (some (descending c)) rs

module _ {Value DateTime State : Type 0} (D : Connection Value DateTime State) where
  -- What `try_get` reads of a column, for each type that the source asks for: the value, if the column
  -- holds one of that type.
  pub record Shows (row : D.Row) (c : Text) (v : Option (Bound Value DateTime)) : Type 0 where
    pub as_uuid : (n : ℕ) → (D.try_get_uuid row c ≡ ok n) ↔ (v ≡ some (uuid (some n)))
    pub as_string : (t : Text) → (D.try_get_string row c ≡ ok t) ↔ (v ≡ some (string (some t)))
    pub as_json : (j : Option Value) → (D.try_get_json row c ≡ ok j) ↔ (v ≡ some (json j))
    pub as_actor : (n : Option ℕ) → (D.try_get_actor row c ≡ ok n) ↔ (v ≡ some (uuid n))
    pub as_time : (t : DateTime) → (D.try_get_time row c ≡ ok t) ↔ (v ≡ some (date_time (some t)))

  -- The rows of an answer show the selected columns of rows of the table.
  abbrev pub ShowAll : List Text → List D.Row → List (Record Value DateTime) → Type 0
  ShowAll columns [] [] = Unit
  ShowAll columns (row ∷ rows) (r ∷ rs) =
      All (λ c. Shows row c (cell Value DateTime c r)) columns × ShowAll columns rows rs
  ShowAll columns _ _ = ⊥

  -- The documented behaviour of the statements, over the rows that the table holds.
  pub record TrailLaws : Type 1 where
    pub Holds : State → Record Value DateTime → Type 0
    pub before : DateTime → DateTime → Bool
    -- An INSERT that succeeds has added the row that its columns and parameters make.
    pub insert-holds :
        (sql : Text) (columns : List Text) (numbers : List ℕ) (values : List (Bound Value DateTime))
        (r : Record Value DateTime) (s : State)
        → parse_sql sql ≡ some (insert (codes "change_log") columns numbers)
        → assigned Value DateTime columns numbers values ≡ some r
        → (D.execute_raw sql values s).0 ≡ ok tt
        → Holds (D.execute_raw sql values s).1 r
    -- A SELECT that succeeds answers with rows of the table that pass its conditions, in its order and
    -- within its limit; with all of them, if the limit leaves room.
    pub select-answers :
        (sql : Text) (q : Selection) (values : List (Bound Value DateTime)) (rows : List D.Row)
        (s : State)
        → parse_sql sql ≡ some (select q)
        → q.table ≡ codes "change_log"
        → All (λ c. IsKey Value DateTime (argument Value DateTime values c.1)) q.conditions
        → (D.query_all_raw sql values s).0 ≡ ok rows
        → (rs : List (Record Value DateTime)) × ShowAll q.columns rows rs
          × All (Holds s) rs
          × All (Meets Value DateTime q.conditions values) rs
          × InOrder Value DateTime before q.sorting rs
          × IsWithin Value DateTime q.limit values (length rs)
          × ((r : Record Value DateTime)
              → Holds s r
              → Meets Value DateTime q.conditions values r
              → HasRoom Value DateTime q.limit values (length rs)
              → Any (λ m. m ≡ r) rs)
    -- The id is the primary key.
    pub key-unique :
        (r m : Record Value DateTime) (s : State)
        → Holds s r
        → Holds s m
        → Equals Value DateTime
            (cell Value DateTime (codes "id") r)
            (cell Value DateTime (codes "id") m)
        → r ≡ m
