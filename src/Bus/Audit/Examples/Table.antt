-- ===== src/Bus/Audit/Examples/Table.antt =====
-- A table of changes with at most one row, which reads the texts of its statements.
use oa_libs.Base.{
  ℕ, ◌==◌, Bool, true, false, ◌&&◌, Option, none, some, List, [], ◌∷◌, Result, ok, err,
  if◌then◌else◌, ltb, all,
}
use oa_libs.Std.Int.{pos}
use oa_libs.Std.Text.{Text, codes, text_eq}
use oa_libs.Bus.Audit.{ChangeEntry, Bound, uuid, string, json, big_int, date_time, Connection}
use oa_libs.Bus.Audit.Sql.{Selection, Statement, insert, select, parse_sql}
use oa_libs.Bus.Audit.Table.{Record, cell, argument, assigned}

abbrev pub Entry : Type 0
Entry = ChangeEntry Text ℕ

abbrev pub Cell : Type 0
Cell = Bound Text ℕ

abbrev pub Rec : Type 0
Rec = Record Text ℕ

abbrev pub older : ℕ → ℕ → Bool
older a b = ltb a b

abbrev pub refused : Text
refused = codes "refused"

abbrev pub stored : Option Rec → Result (Unit {0}) Text × Option Rec
stored none = (err refused, none)
stored (some r) = (ok tt, some r)

abbrev pub executed :
    Option Statement → List Cell → Option Rec → Result (Unit {0}) Text × Option Rec
executed (some (insert name columns numbers)) values none =
    stored (assigned Text ℕ columns numbers values)
executed _ values s = (err refused, s)

abbrev pub equals : Option Cell → Option Cell → Bool
equals (some (uuid (some a))) (some (uuid (some b))) = a == b
equals (some (string (some a))) (some (string (some b))) = text_eq a b
equals _ _ = false

abbrev pub meets : List (Text × ℕ) → List Cell → Rec → Bool
meets conditions values r =
    all (λ c. equals (cell Text ℕ c.0 r) (argument Text ℕ values c.1)) conditions

abbrev pub allowed : Option Cell → Bool
allowed (some (big_int (some (pos n)))) = ltb 0 n
allowed _ = false

abbrev pub roomy : Option ℕ → List Cell → Bool
roomy none values = true
roomy (some k) values = allowed (argument Text ℕ values k)

abbrev pub picked : Selection → List Cell → Option Rec → List Rec
picked q values none = []
picked q values (some r) =
    if meets q.conditions values r && roomy q.limit values then r ∷ [] else []

abbrev pub queried : Option Statement → List Cell → Option Rec → Result (List Rec) Text × Option Rec
queried (some (select q)) values s = (ok (picked q values s), s)
queried _ values s = (err refused, s)

abbrev pub as_uuid : Option Cell → Result ℕ Text
as_uuid (some (uuid (some n))) = ok n
as_uuid _ = err refused

abbrev pub as_string : Option Cell → Result Text Text
as_string (some (string (some t))) = ok t
as_string _ = err refused

abbrev pub as_json : Option Cell → Result (Option Text) Text
as_json (some (json j)) = ok j
as_json _ = err refused

abbrev pub as_actor : Option Cell → Result (Option ℕ) Text
as_actor (some (uuid n)) = ok n
as_actor _ = err refused

abbrev pub as_time : Option Cell → Result ℕ Text
as_time (some (date_time (some t))) = ok t
as_time _ = err refused

abbrev pub table : Connection Text ℕ (Option Rec)
table = record {
  Row = Rec;
  execute_raw = λ sql values s. executed (parse_sql sql) values s;
  query_all_raw = λ sql values s. queried (parse_sql sql) values s;
  try_get_uuid = λ row name. as_uuid (cell Text ℕ name row);
  try_get_string = λ row name. as_string (cell Text ℕ name row);
  try_get_json = λ row name. as_json (cell Text ℕ name row);
  try_get_actor = λ row name. as_actor (cell Text ℕ name row);
  try_get_time = λ row name. as_time (cell Text ℕ name row);
}
