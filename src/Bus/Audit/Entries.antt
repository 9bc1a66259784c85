-- ===== src/Bus/Audit/Entries.antt =====
-- The entries of the log of changes, and the rows of the table that they stand for.
use mathlib.Core.Option.{some-injective}
use oa_libs.Base.{
  suc, subst, ◌≡◌, refl, sym, ap, ◌∙◌, Bool, false, some, List, [], ◌∷◌, All, Any, inl, inr, length,
  Result, ok, err, and_then, arith,
}
use oa_libs.Std.Text.{Text, codes}
use oa_libs.Bus.Audit.{
  ChangeEntry, uuid, string, json, date_time, Connection, entry_from_row, all_entries,
}
use oa_libs.Bus.Audit.Sql.{descending}
use oa_libs.Bus.Audit.Table.{Record, cell, Shows, ShowAll, InOrder}

-- The columns of the table.
abbrev pub all_columns : List Text
all_columns =
    codes "id"
    ∷ codes "entity"
    ∷ codes "entity_id"
    ∷ codes "action"
    ∷ codes "before"
    ∷ codes "after"
    ∷ codes "actor_id"
    ∷ codes "created_at"
    ∷ []

-- The columns of the row hold the fields of the entry, each the one that it is named after.
pub record Represents {Value DateTime : Type 0} (r : Record Value DateTime)
    (e : ChangeEntry Value DateTime) : Type 0 where
  pub id : cell Value DateTime (codes "id") r ≡ some (uuid (some e.id))
  pub entity : cell Value DateTime (codes "entity") r ≡ some (string (some e.entity))
  pub entity_id : cell Value DateTime (codes "entity_id") r ≡ some (string (some e.entity_id))
  pub action : cell Value DateTime (codes "action") r ≡ some (string (some e.action))
  pub before : cell Value DateTime (codes "before") r ≡ some (json e.before)
  pub after : cell Value DateTime (codes "after") r ≡ some (json e.after)
  pub actor_id : cell Value DateTime (codes "actor_id") r ≡ some (uuid e.actor_id)
  pub created_at : cell Value DateTime (codes "created_at") r ≡ some (date_time (some e.created_at))

and_then-eq-ok :
    {A B : Type 0} (m : Result A Text) (f : A → Result B Text) {b : B}
    → and_then m f ≡ ok b
    → (a : A) × (m ≡ ok a) × (f a ≡ ok b)
and_then-eq-ok (ok a) f h = (a, refl, h)
and_then-eq-ok (err e) f h = absurd (cc)

pub ok-injective : {A : Type 0} {a b : A} → Path (Result A Text) (ok a) (ok b) → a ≡ b
ok-injective h = ground arith

module _ {Value DateTime : Type 0} where
  -- A row stands for one entry at most.
  pub Represents-unique :
      (r : Record Value DateTime) (e f : ChangeEntry Value DateTime)
      → Represents r e
      → Represents r f
      → e ≡ f
  Represents-unique r e f p q = ground (
    arith,
    some-injective _ _ (sym p.id ∙ q.id),
    some-injective _ _ (sym p.entity ∙ q.entity),
    some-injective _ _ (sym p.entity_id ∙ q.entity_id),
    some-injective _ _ (sym p.action ∙ q.action),
    some-injective _ _ (sym p.before ∙ q.before),
    some-injective _ _ (sym p.after ∙ q.after),
    some-injective _ _ (sym p.actor_id ∙ q.actor_id),
    some-injective _ _ (sym p.created_at ∙ q.created_at),
  )

  -- The entries stand for the rows, in their order.
  abbrev pub Matched : List (Record Value DateTime) → List (ChangeEntry Value DateTime) → Type 0
  Matched [] [] = Unit
  Matched (r ∷ rs) (e ∷ es) = Represents r e × Matched rs es
  Matched _ _ = ⊥

  pub Matched-length :
      (rs : List (Record Value DateTime)) (es : List (ChangeEntry Value DateTime))
      → Matched rs es
      → length es ≡ length rs
  Matched-length [] [] h = refl
  Matched-length (r ∷ rs) [] h = absurd h
  Matched-length [] (e ∷ es) h = absurd h
  Matched-length (r ∷ rs) (e ∷ es) h = ap suc (Matched-length rs es h.1)

  -- An entry whose row is among the rows is among the entries.
  pub Matched-any :
      (r : Record Value DateTime) (e : ChangeEntry Value DateTime)
      (rs : List (Record Value DateTime)) (es : List (ChangeEntry Value DateTime))
      → Represents r e
      → Matched rs es
      → Any (λ m. m ≡ r) rs
      → Any (λ f. f ≡ e) es
  Matched-any r e [] es p h found = absurd found
  Matched-any r e (m ∷ rs) [] p h found = absurd h
  Matched-any r e (m ∷ rs) (f ∷ es) p h (inl same) =
      inl (Represents-unique r f e (subst (λ k. Represents k f) same h.0) p)
  Matched-any r e (m ∷ rs) (f ∷ es) p h (inr found) = inr (Matched-any r e rs es p h.1 found)

  module _ (before : DateTime → DateTime → Bool) where
    -- No entry is older than one that comes after it.
    abbrev pub NewestFirst : List (ChangeEntry Value DateTime) → Type 0
    NewestFirst [] = Unit
    NewestFirst (e ∷ es) = All (λ f. before e.created_at f.created_at ≡ false) es × NewestFirst es

    abbrev Descending : List (Record Value DateTime) → Type 0
    Descending rs = InOrder Value DateTime before (some (descending (codes "created_at"))) rs

    none_newer :
        (r : Record Value DateTime) (e : ChangeEntry Value DateTime)
        (rs : List (Record Value DateTime)) (es : List (ChangeEntry Value DateTime))
        → Represents r e
        → Matched rs es
        → Descending (r ∷ rs)
        → All (λ f. before e.created_at f.created_at ≡ false) es
    none_newer r e rs [] p h order = tt
    none_newer r e [] (f ∷ es) p h order = absurd h
    none_newer r e (m ∷ rs) (f ∷ es) p h order = (
      rw (p.created_at, h.0.created_at) at (order.0.0),
      none_newer r e rs es p h.1 (order.0.1, order.1.1),
    )

    pub Matched-NewestFirst :
        (rs : List (Record Value DateTime)) (es : List (ChangeEntry Value DateTime))
        → Matched rs es
        → Descending rs
        → NewestFirst es
    Matched-NewestFirst [] [] h order = tt
    Matched-NewestFirst (r ∷ rs) [] h order = absurd h
    Matched-NewestFirst [] (e ∷ es) h order = absurd h
    Matched-NewestFirst (r ∷ rs) (e ∷ es) h order =
        (none_newer r e rs es h.0 h.1 order, Matched-NewestFirst rs es h.1 order.1)

module _ {Value DateTime State : Type 0} (D : Connection Value DateTime State) where
  abbrev Shown : D.Row → Record Value DateTime → Type 0
  Shown row r = All (λ c. Shows D row c (cell Value DateTime c r)) all_columns

  -- A row of an answer is read as the entry that the row of the table stands for.
  pub entry_from_row-Represents :
      (row : D.Row) (r : Record Value DateTime) (e : ChangeEntry Value DateTime)
      → Shown row r
      → Represents r e
      → entry_from_row D row ≡ ok e
  unfolding entry_from_row
  entry_from_row-Represents row r e (a, (b, (c, (d, (f, (g, (h, (i, _)))))))) p =
      rw
        (
          (a.as_uuid e.id).1 p.id,
          (b.as_string e.entity).1 p.entity,
          (c.as_string e.entity_id).1 p.entity_id,
          (d.as_string e.action).1 p.action,
          (f.as_json e.before).1 p.before,
          (g.as_json e.after).1 p.after,
          (h.as_actor e.actor_id).1 p.actor_id,
          (i.as_time e.created_at).1 p.created_at,
        )
        refl

  -- And only as that.
  pub Represents-read :
      (row : D.Row) (r : Record Value DateTime) (e : ChangeEntry Value DateTime)
      → Shown row r
      → entry_from_row D row ≡ ok e
      → Represents r e
  unfolding entry_from_row
  Represents-read row r e (a, (b, (c, (d, (f, (g, (h, (i, _)))))))) read =
      let (id, got_id, rest₁) = and_then-eq-ok (D.try_get_uuid row (codes "id")) _ read in
      let (entity, got_entity, rest₂) =
        and_then-eq-ok (D.try_get_string row (codes "entity")) _ rest₁ in
      let (entity_id, got_entity_id, rest₃) =
        and_then-eq-ok (D.try_get_string row (codes "entity_id")) _ rest₂ in
      let (action, got_action, rest₄) =
        and_then-eq-ok (D.try_get_string row (codes "action")) _ rest₃ in
      let (before, got_before, rest₅) =
        and_then-eq-ok (D.try_get_json row (codes "before")) _ rest₄ in
      let (after, got_after, rest₆) = and_then-eq-ok (D.try_get_json row (codes "after")) _ rest₅ in
      let (actor_id, got_actor_id, rest₇) =
        and_then-eq-ok (D.try_get_actor row (codes "actor_id")) _ rest₆ in
      let (created_at, got_created_at, rest₈) =
        and_then-eq-ok (D.try_get_time row (codes "created_at")) _ rest₇ in
      subst (Represents r) (ok-injective rest₈) (record {
        id = (a.as_uuid id).0 got_id;
        entity = (b.as_string entity).0 got_entity;
        entity_id = (c.as_string entity_id).0 got_entity_id;
        action = (d.as_string action).0 got_action;
        before = (f.as_json before).0 got_before;
        after = (g.as_json after).0 got_after;
        actor_id = (h.as_actor actor_id).0 got_actor_id;
        created_at = (i.as_time created_at).0 got_created_at;
      })

  -- The entries that are read are those of the rows of the table, in their order.
  pub all_entries-Matched :
      (rows : List D.Row) (rs : List (Record Value DateTime))
      (es : List (ChangeEntry Value DateTime))
      → ShowAll D all_columns rows rs
      → all_entries D rows ≡ ok es
      → Matched rs es
  unfolding all_entries
  all_entries-Matched [] [] es shown read = subst (Matched []) (ok-injective read) tt
  all_entries-Matched [] (r ∷ rs) es shown read = absurd shown
  all_entries-Matched (row ∷ rows) [] es shown read = absurd shown
  all_entries-Matched (row ∷ rows) (r ∷ rs) es shown read =
      let (e, first, rest) = and_then-eq-ok (entry_from_row D row) _ read in
      let (others, read', last) = and_then-eq-ok (all_entries D rows) _ rest in
      subst (Matched (r ∷ rs)) (ok-injective last)
        (Represents-read row r e shown.0 first, all_entries-Matched rows rs others shown.1 read')
