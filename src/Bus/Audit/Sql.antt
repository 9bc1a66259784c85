-- ===== src/Bus/Audit/Sql.antt =====
-- The SQL that the statements of crates/bus/src/audit.rs are written in: what such a text says. A text of
-- another form says nothing here.
use oa_libs.Base.{
  ℕ, ◌-◌, Bool, Option, none, some, List, [], ◌∷◌, is_empty, ◌==◌, ◌&&◌, ◌||◌, leb, if◌then◌else◌,
}
use oa_libs.Std.Text.{Text, codes, text_eq}

-- ORDER BY a column.
pub data Sorting : Type 0 where
  ascending descending : Text → Sorting

-- A column with the number of the parameter that it is set to, or compared with by `=`.
pub record Selection : Type 0 where
  pub columns : List Text
  pub table : Text
  pub conditions : List (Text × ℕ)
  pub sorting : Option Sorting
  pub limit : Option ℕ

pub data Statement : Type 0 where
  insert : Text → List Text → List ℕ → Statement
  select : Selection → Statement

abbrev pub maybe_then : {A B : Type 0} → Option A → (A → Option B) → Option B
maybe_then none f = none
maybe_then (some a) f = f a

is_mark : ℕ → Bool
is_mark c = c == b'(' || c == b')' || c == b','

cons_word : ℕ → List Text → List Text
cons_word c [] = (c ∷ []) ∷ []
cons_word c (w ∷ ws) = (c ∷ w) ∷ ws

-- The words, with a parenthesis and a comma as words of their own, and empty words between them.
lex : Text → List Text
unfolding is_mark cons_word
lex [] = [] ∷ []
lex (c ∷ s) =
    let rest = lex s in
    if c == b' ' then [] ∷ rest else if is_mark c then [] ∷ (c ∷ []) ∷ rest else cons_word c rest

drop_empty : List Text → List Text
drop_empty [] = []
drop_empty (w ∷ ws) = let rest = drop_empty ws in if is_empty w then rest else w ∷ rest

words : Text → List Text
unfolding lex drop_empty
words s = drop_empty (lex s)

expect : Text → List Text → Option (List Text)
unfolding text_eq
expect w [] = none
expect w (t ∷ ts) = if text_eq t w then some ts else none

-- Words with commas between them, and what follows.
listed : List Text → Option (List Text × List Text)
unfolding text_eq
listed [] = none
listed (a ∷ []) = some (a ∷ [], [])
listed (a ∷ c ∷ ts) =
    let rest = listed ts in
    if text_eq c (codes ",")
    then maybe_then rest (λ p. some (a ∷ p.0, p.1))
    else some (a ∷ [], c ∷ ts)

-- `$1` to `$9`.
parameter : Text → Option ℕ
parameter (c ∷ d ∷ []) = if c == b'$' && leb b'1' d && leb d b'9' then some (d - b'0') else none
parameter _ = none

parameters : List Text → Option (List ℕ)
unfolding parameter
parameters [] = some []
parameters (t ∷ ts) =
    let rest = parameters ts in maybe_then (parameter t) λ n. maybe_then rest λ ns. some (n ∷ ns)

-- `c = $n`, with `AND` between them, and what follows.
compared : List Text → Option (List (Text × ℕ) × List Text)
unfolding text_eq parameter
compared (c ∷ e ∷ p ∷ []) =
    if text_eq e (codes "=") then maybe_then (parameter p) (λ n. some ((c, n) ∷ [], [])) else none
compared (c ∷ e ∷ p ∷ a ∷ ts) =
    let rest = compared ts in
    if text_eq e (codes "=")
    then maybe_then (parameter p) (λ n.
      if text_eq a (codes "AND")
      then maybe_then rest (λ q. some ((c, n) ∷ q.0, q.1))
      else some ((c, n) ∷ [], a ∷ ts))
    else none
compared _ = none

filtered : List Text → Option (List (Text × ℕ) × List Text)
unfolding text_eq compared
filtered (w ∷ ts) = if text_eq w (codes "WHERE") then compared ts else some ([], w ∷ ts)
filtered [] = some ([], [])

sorted : List Text → Option Sorting × List Text
unfolding text_eq
sorted (o ∷ b ∷ c ∷ d ∷ ts) =
    if text_eq o (codes "ORDER") && text_eq b (codes "BY")
    then if text_eq d (codes "DESC")
      then (some (descending c), ts)
      else if text_eq d (codes "ASC")
      then (some (ascending c), ts)
      else (none, o ∷ b ∷ c ∷ d ∷ ts)
    else (none, o ∷ b ∷ c ∷ d ∷ ts)
sorted ts = (none, ts)

limited : List Text → Option (Option ℕ)
unfolding text_eq parameter
limited [] = some none
limited (l ∷ p ∷ []) =
    if text_eq l (codes "LIMIT") then maybe_then (parameter p) (λ n. some (some n)) else none
limited _ = none

-- Behind `SELECT`.
selection : List Text → Option Statement
unfolding listed expect filtered sorted limited
selection ts = maybe_then (listed ts) λ cols. maybe_then (expect (codes "FROM") cols.1) λ from.
    maybe_then (listed from) λ tables. maybe_then (filtered tables.1) λ conds.
      let order = sorted conds.1 in
      maybe_then (limited order.1) λ limit. some (
        select (record {
          columns = cols.0;
          table = only tables.0;
          conditions = conds.0;
          sorting = order.0;
          limit = limit;
        }))
  where
    only : List Text → Text
    only (t ∷ []) = t
    only _ = []

-- Behind `INSERT`.
insertion : List Text → Option Statement
unfolding listed expect parameters
insertion ts = maybe_then (expect (codes "INTO") ts) λ into. maybe_then (listed into) λ tables.
    maybe_then (expect (codes "(") tables.1) λ opened. maybe_then (listed opened) λ cols.
      maybe_then (expect (codes ")") cols.1) λ closed.
        maybe_then (expect (codes "VALUES") closed) λ values.
          maybe_then (expect (codes "(") values) λ opened'. maybe_then (listed opened') λ given.
            maybe_then (expect (codes ")") given.1) λ rest.
              maybe_then (parameters given.0)
                λ numbers. if is_empty rest then into_one tables.0 cols.0 numbers else none
  where
    into_one : List Text → List Text → List ℕ → Option Statement
    into_one (t ∷ []) cols numbers = some (insert t cols numbers)
    into_one _ cols numbers = none

statement : List Text → Option Statement
unfolding text_eq selection insertion
statement [] = none
statement (w ∷ ts) =
    if text_eq w (codes "SELECT")
    then selection ts
    else if text_eq w (codes "INSERT")
    then insertion ts
    else none

-- What a text says.
unfoldable pub parse_sql : Text → Option Statement
unfolding statement words
parse_sql s = statement (words s)
