-- ===== src/Bus/Audit/Trail.antt =====
-- A change that was recorded is found again as it was, and a list holds the changes of its entity only.
use oa_libs.Base.{
  ℕ, ◌≤◌, ◌<◌, max, ◌≡◌, refl, sym, subst, Option, some, List, [], ◌∷◌, All, Any, length, Result,
  ok, err, continue, arith,
}
use oa_libs.Std.Int.{pos}
use oa_libs.Std.Text.{Text}
use oa_libs.Bus.Audit.{
  ChangeEntry, Bound, string, big_int, Connection, list_sql, list_limit, all_entries, list_for,
}
use oa_libs.Bus.Audit.Table.{Record, Equals, Meets, TrailLaws}
use oa_libs.Bus.Audit.Statements.{of_entity, list-parsed}
use oa_libs.Bus.Audit.Entries.{
  Represents, Matched, Matched-length, Matched-any, NewestFirst, Matched-NewestFirst,
  all_entries-Matched,
}

module _ {Value DateTime State : Type 0} (D : Connection Value DateTime State) where
  pub found_in :
      {A : Type 0} (m : Result (List D.Row) Text × State) (f : List D.Row → Result A Text) {a : A}
      → (continue m (λ rows t. (f rows, t))).0 ≡ ok a
      → (rows : List D.Row) × (m.0 ≡ ok rows) × (f rows ≡ ok a)
  found_in (ok rows, t) f h = (rows, refl, h)
  found_in (err e, t) f h = absurd (cc)

  text-equal :
      (v : Option (Bound Value DateTime)) (t u : Text)
      → v ≡ some (string (some t))
      → Equals Value DateTime v (some (string (some u)))
      → t ≡ u
  text-equal v t u h same = subst (λ w. Equals Value DateTime w (some (string (some u)))) h same

  equal-text :
      (v : Option (Bound Value DateTime)) (t u : Text)
      → v ≡ some (string (some t))
      → t ≡ u
      → Equals Value DateTime v (some (string (some u)))
  equal-text v t u h same =
      subst (λ w. Equals Value DateTime w (some (string (some u)))) (sym h) same

  module _ (L : TrailLaws D) where
    open L use {Holds, before}

    -- The values that `list_for` binds.
    abbrev listing : Text → Text → ℕ → List (Bound Value DateTime)
    listing entity entity_id limit =
        string (some entity)
        ∷ string (some entity_id)
        ∷ big_int (some (pos (list_limit limit)))
        ∷ []

    of_the_entity :
        (entity entity_id : Text) (limit : ℕ) (s : State) (rs : List (Record Value DateTime))
        (es : List (ChangeEntry Value DateTime))
        → Matched rs es
        → All (Holds s) rs
        → All (Meets Value DateTime of_entity.conditions (listing entity entity_id limit)) rs
        → All
            (λ e.
              (e.entity ≡ entity)
              × (e.entity_id ≡ entity_id)
              × ((r : Record Value DateTime) × Holds s r × Represents r e))
            es
    of_the_entity entity entity_id limit s [] [] h holds meets = tt
    of_the_entity entity entity_id limit s (r ∷ rs) [] h holds meets = absurd h
    of_the_entity entity entity_id limit s [] (e ∷ es) h holds meets = absurd h
    of_the_entity entity entity_id limit s (r ∷ rs) (e ∷ es) h holds meets = (
      (
        text-equal _ e.entity entity h.0.entity meets.0.0,
        text-equal _ e.entity_id entity_id h.0.entity_id meets.0.1.0,
        (r, holds.0, h.0),
      ),
      of_the_entity entity entity_id limit s rs es h.1 holds.1 meets.1,
    )

    -- A list that is returned holds at most 200 entries and at most as many as asked for, or one if none
    -- was asked for; each is a row of the table, of the entity with the identifier; the newest come
    -- first; and if the list holds fewer than that limit, every row of that entity is in it.
    pub list_for_exact :
        (entity entity_id : Text) (limit : ℕ) (s : State) (es : List (ChangeEntry Value DateTime))
        → (list_for D entity entity_id limit s).0 ≡ ok es
        → (length es ≤ 200)
          × (length es ≤ max limit 1)
          × All
              (λ e.
                (e.entity ≡ entity)
                × (e.entity_id ≡ entity_id)
                × ((r : Record Value DateTime) × Holds s r × Represents r e))
              es
          × NewestFirst before es
          × ((r : Record Value DateTime) (e : ChangeEntry Value DateTime)
              → length es < 200
              → length es < max limit 1
              → Holds s r
              → Represents r e
              → e.entity ≡ entity
              → e.entity_id ≡ entity_id
              → Any (λ f. f ≡ e) es)
    unfolding list_for
    list_for_exact entity entity_id limit s es h =
        let values = listing entity entity_id limit in
        let (rows, answered, read) =
          found_in (D.query_all_raw list_sql values s) (all_entries D) h in
        let (rs, shown, holds, meets, ordered, within, complete) =
          L.select-answers list_sql of_entity values rows s list-parsed refl (tt, (tt, tt))
            answered in
        let matched = all_entries-Matched D rows rs es shown read in
        let sizes = Matched-length rs es matched in
        (
          omega arith,
          omega arith,
          of_the_entity entity entity_id limit s rs es matched holds meets,
          Matched-NewestFirst before rs es matched ordered,
          λ r e below few held p named numbered. Matched-any r e rs es p matched (
              complete r held
                (
                  equal-text _ e.entity entity p.entity named,
                  (equal-text _ e.entity_id entity_id p.entity_id numbered, tt),
                )
                (omega arith)),
        )
