-- ===== src/Bus/Outbox/Progress.antt =====
-- A round comes to its end as long as the database answers, whatever the bus does.
use oa_libs.Base.{
  ◌∙◌, sym, ℕ, suc, ◌+◌, ◌≤◌, ◌<◌, ◌≡◌, ◌^◌, List, [], ◌∷◌, All, length, Result, ok, err, refl,
  arith,
}
use oa_libs.Std.Int.{pos, Profile}
use oa_libs.Deps.{Json, Chrono}
use oa_libs.Std.Text.{Text}
use oa_libs.Common.Error.{AppError, to_string}
use oa_libs.Bus.Message.{Wire}
use oa_libs.Bus.Client.{Redis, publish}
use oa_libs.Bus.Outbox.{
  Model, Patch, Database, Stop, due, sent_patch, retry_patch, settle_row, settle_sent, mark_sent,
  drain_row, drain_rows, drain_once, fetch_due,
}
use oa_libs.Bus.Outbox.Backoff.{documented}
use oa_libs.Bus.Outbox.Table.{TableLaws}
use oa_libs.Bus.Outbox.Rows.{IsCounted, retry_shape, increment_of_small}

module _ (J : Json) (C : Chrono) {State : Type 0} {W : Wire J.Value} (D : Database J C State)
    (R : Redis J W State) (L : TableLaws J C D R) (p : Profile) (now : C.DateTime) where
  -- Every update succeeds.
  abbrev pub Updates : Type 0
  Updates =
      (id : ℕ) (patch : Patch J C) (s : State) → (t : State) × (D.update id patch s ≡ (ok tt, t))

  abbrev Returns : ℕ → Result ℕ Stop × State → Type 0
  Returns bound m = (n : ℕ) × (t : State) × (m ≡ (ok n, t)) × (n ≤ bound)

  settle_row-Returns :
      Updates
      → (row : Model J C) (sent : ℕ) (m : Result Text AppError × State)
      → IsCounted J C D R L p now row
      → suc sent < 2 ^ 32
      → Returns (suc sent) (settle_row J C D R p row now sent m)
  unfolding settle_row settle_sent mark_sent
  settle_row-Returns updates row sent (ok id, s) counted small =
      let (t, done) = updates row.id (sent_patch J C now) s in
      (suc sent, t, rw (done, increment_of_small J C D R L p now sent small) refl, omega arith)
  settle_row-Returns updates row sent (err error, s) (before, counted, few) small =
      let patch =
        retry_patch J C (pos (suc before)) (C.add_seconds now (documented (suc before)))
          (to_string error) in
      let (t, done) = updates row.id patch s in
      let shape = retry_shape J C D R L p now row sent error s before counted few refl in
      (sent, t, sym shape ∙ rw done refl, omega arith)

  drain_rows-returns :
      Updates
      → (rows : List (Model J C)) (sent : ℕ) (s : State) → All (IsCounted J C D R L p now) rows
      → sent + length rows < 2 ^ 32
      → (n : ℕ) × (t : State) × (drain_rows J C D R p rows now sent s ≡ (ok n, t))
  unfolding drain_rows drain_row
  drain_rows-returns updates [] sent s counted small = (sent, s, refl)
  drain_rows-returns updates (row ∷ rows) sent s counted small =
      let (m, t, done, few) =
        settle_row-Returns updates row sent (publish R row.event_type row.payload s) counted.0
          (omega arith) in
      let (n, u, rest) = drain_rows-returns updates rows m t counted.1 (omega arith) in
      (n, u, rw done rest)

  -- If the query and every update succeed and the attempts of the fetched rows, fewer than 2 ^ 32, can
  -- be counted, a round ends with a result in either build profile: an event that cannot be encoded or
  -- published never stops it.
  pub drain_once-returns :
      (limit : ℕ) (s t : State) (rows : List (Model J C))
      → Updates
      → D.select (due J C limit now) s ≡ (ok rows, t)
      → All (IsCounted J C D R L p now) rows
      → length rows < 2 ^ 32
      → (n : ℕ) × (u : State) × (drain_once J C D R p limit now s ≡ (ok n, u))
  unfolding drain_once fetch_due
  drain_once-returns limit s t rows updates fetched counted few =
      let (n, u, done) = drain_rows-returns updates rows 0 t counted (omega arith) in
      (n, u, rw fetched done)
