-- ===== src/Bus/Audit/Lookup.antt =====
-- What the answer of `find` in crates/bus/src/audit.rs says of the table.
use oa_libs.Base.{
  ℕ, ◌≡◌, ◌≢◌, ◌⊎◌, inl, inr, refl, sym, subst, Option, none, some, List, [], ◌∷◌, All, Any, Result,
  ok, err, map_ok,
}
use oa_libs.Std.Text.{Text, codes}
use oa_libs.Bus.Audit.{
  ChangeEntry, Bound, uuid, Connection, find_sql, entry_from_row, first_entry, find_change,
}
use oa_libs.Bus.Audit.Table.{Record, cell, Equals, Meets, ShowAll, TrailLaws}
use oa_libs.Bus.Audit.Statements.{by_id, find-parsed}
use oa_libs.Bus.Audit.Entries.{all_columns, Represents, ok-injective, Represents-read}
use oa_libs.Bus.Audit.Trail.{found_in}

map_ok-some :
    {A : Type 0} (m : Result A Text) (o : Option A)
    → map_ok some m ≡ ok o
    → (a : A) × (m ≡ ok a) × (o ≡ some a)
map_ok-some (ok a) o h = (a, refl, sym (ok-injective h))
map_ok-some (err e) o h = absurd (cc)

module _ {Value DateTime State : Type 0} (D : Connection Value DateTime State)
    (L : TrailLaws D) where
  open L use {Holds}

  abbrev Looked : ℕ → State → Option (ChangeEntry Value DateTime) → Type 0
  Looked id s o =
      ((o ≡ none)
        × ((r : Record Value DateTime)
            → Holds s r
            → cell Value DateTime (codes "id") r ≢ some (uuid (some id))))
      ⊎ ((e : ChangeEntry Value DateTime) × (r : Record Value DateTime) × (o ≡ some e)
          × (e.id ≡ id)
          × Holds s r
          × Represents r e)

  id-equal :
      (v : Option (Bound Value DateTime)) (n id : ℕ)
      → v ≡ some (uuid (some n))
      → Equals Value DateTime v (some (uuid (some id)))
      → n ≡ id
  id-equal v n id h same = subst (λ w. Equals Value DateTime w (some (uuid (some id)))) h same

  first-Looked :
      (id : ℕ) (s : State) (o : Option (ChangeEntry Value DateTime)) (rows : List D.Row)
      (rs : List (Record Value DateTime))
      → ShowAll D all_columns rows rs
      → All (Holds s) rs
      → All (Meets Value DateTime by_id.conditions (uuid (some id) ∷ [])) rs
      → ((r : Record Value DateTime)
          → Holds s r
          → Meets Value DateTime by_id.conditions (uuid (some id) ∷ []) r
          → Any (λ m. m ≡ r) rs)
      → first_entry D rows ≡ ok o
      → Looked id s o
  unfolding first_entry
  first-Looked id s o [] [] shown holds meets complete first = inl (
    sym (ok-injective first),
    λ r held named.
        complete r held
          (subst (λ w. Equals Value DateTime w (some (uuid (some id)))) (sym named) refl, tt),
  )
  first-Looked id s o [] (m ∷ rs) shown holds meets complete first = absurd shown
  first-Looked id s o (row ∷ rows) [] shown holds meets complete first = absurd shown
  first-Looked id s o (row ∷ rows) (m ∷ rs) shown holds meets complete first =
      let (e, read, same) = map_ok-some (entry_from_row D row) o first in
      let p = Represents-read D row m e shown.0 read in
      inr (e, m, same, id-equal _ e.id id p.id meets.0.0, holds.0, p)

  -- A lookup that answers with nothing says that no row of the table has the id; one that answers with
  -- an entry, that the entry has the id and stands, with every field, for a row of the table.
  pub find_change_exact :
      (id : ℕ) (s : State) (o : Option (ChangeEntry Value DateTime))
      → (find_change D id s).0 ≡ ok o
      → ((o ≡ none)
          × ((r : Record Value DateTime)
              → Holds s r
              → cell Value DateTime (codes "id") r ≢ some (uuid (some id))))
        ⊎ ((e : ChangeEntry Value DateTime) × (r : Record Value DateTime) × (o ≡ some e)
            × (e.id ≡ id)
            × Holds s r
            × Represents r e)
  unfolding find_change
  find_change_exact id s o h =
      let (rows, answered, first) =
        found_in D (D.query_all_raw find_sql (uuid (some id) ∷ []) s) (first_entry D) h in
      let (rs, shown, holds, meets, ordered, within, complete) =
        L.select-answers find_sql by_id (uuid (some id) ∷ []) rows s find-parsed refl (tt, tt)
          answered in
      first-Looked id s o rows rs shown holds meets (λ r held passes. complete r held passes tt)
        first
