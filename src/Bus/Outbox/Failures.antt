-- ===== src/Bus/Outbox/Failures.antt =====
-- A round of `drain_once` that stops with an error: how far it has come, and what it leaves for the next.
use oa_libs.Base.{
  ℕ, suc, ◌+◌, ◌^◌, ◌<◌, ◌≡◌, ◌≢◌, ◌⊎◌, inl, inr, refl, sym, ap, subst, ◌∙◌, some, List, [], ◌∷◌,
  ◌++◌, map, All, Any, length, Result, ok, err, continue, Result-cases, map_err, arith,
}
use oa_libs.Deps.{Json, Chrono}
use oa_libs.Std.Int.{Profile}
use oa_libs.Common.Error.{internal}
use oa_libs.Bus.Message.{Wire, stream_name}
use oa_libs.Bus.Client.{Redis}
use oa_libs.Bus.Outbox.{Model, Database, Stop, due, fetch_due, drain_row, drain_rows, drain_once}
use oa_libs.Bus.Outbox.Table.{TableLaws, AllApart}
use oa_libs.Bus.Outbox.Publishing.{Keeps}
use oa_libs.Bus.Outbox.Rows.{IsCounted}
use oa_libs.Bus.Outbox.Draining.{
  Settled, nothing, delivered, rescheduled, RowDone, drained_row, All-held, pair_of, grown,
}
use oa_libs.Bus.Outbox.Round.{among, All-IsCounted}
use oa_libs.Bus.Outbox.Interruption.{
  IsInternalStop, HalfDone, RowStopped, not_both, stopped, stopped_at,
}

module _ (J : Json) (C : Chrono) {State : Type 0} {W : Wire J.Value} (D : Database J C State)
    (R : Redis J W State) (L : TableLaws J C D R) (p : Profile) (now : C.DateTime) where
  open L use {row_of, Entered}

  -- How the rows of the round are left: those before the one at which it stopped are settled, and
  -- those behind it are as they were.
  abbrev pub LeftOver : State → List (Model J C) → Type 0
  LeftOver t rows =
      (done rest : List (Model J C)) × (row : Model J C) × (k : ℕ) × (rows ≡ done ++ row ∷ rest)
      × Settled J C D R L p now t done k
      × HalfDone J C D R L p now t row
      × All (λ r. row_of t r.id ≡ some r) rest

  abbrev RowsStopped : List (Model J C) → State → State → Stop → Type 0
  RowsStopped rows s t stop =
      IsInternalStop J C D R L p now stop
      × LeftOver t rows
      × ((id : ℕ) → All (λ m. id ≢ m) (map (λ r. r.id) rows) → row_of t id ≡ row_of s id)
      × Keeps J C D R L p now s t

  stopped_here :
      (row : Model J C) (rows : List (Model J C)) (s t : State) (stop : Stop)
      → All (λ k. row.id ≢ k) (map (λ r. r.id) rows)
      → All (λ r. row_of s r.id ≡ some r) rows
      → RowStopped J C D R L p now row s t stop
      → RowsStopped (row ∷ rows) s t stop
  stopped_here row rows s t stop apart held (inner, half, others, kept) = (
    inner,
    (
      [],
      rows,
      row,
      0,
      refl,
      nothing,
      half,
      All-held J C D R L p now row rows s t apart others held,
    ),
    λ id far. others id (λ same. far.0 (sym same)),
    kept,
  )

  stopped_later :
      (row : Model J C) (rows : List (Model J C)) (sent m : ℕ) (s u t : State) (stop : Stop)
      → All (λ k. row.id ≢ k) (map (λ r. r.id) rows)
      → RowDone J C D R L p now row sent m s u
      → RowsStopped rows u t stop
      → RowsStopped (row ∷ rows) s t stop
  stopped_later row rows sent m s u t stop apart (first, others, kept)
        (inner, (done, rest, last, k, split, settled, half, behind), far_rows, kept') =
      let form = ap (λ l. row ∷ l) split in
      (
        inner,
        elim first [
          | inl (one, logged, now_sent) ↦ (
            row ∷ done,
            rest,
            last,
            suc k,
            form,
            delivered (kept' row logged) (far_rows row.id apart ∙ now_sent) settled,
            half,
            behind,
          )
          | inr (none_more, (before, error, counted, waits)) ↦ (
            row ∷ done,
            rest,
            last,
            k,
            form,
            rescheduled before error counted (far_rows row.id apart ∙ waits) settled,
            half,
            behind,
          )
        ],
        λ id far. far_rows id far.1 ∙ others id (λ same. far.0 (sym same)),
        λ other was. kept' other (kept other was),
      )

  chain_failed :
      {E : Stop} {t : State} (m : Result ℕ Stop × State) (f : ℕ → State → Result ℕ Stop × State)
      → (e : Stop) → m.0 ≡ err e
      → continue m f ≡ (err E, t)
      → m ≡ (err E, t)
  chain_failed (ok a, s) f e h k = absurd (cc)
  chain_failed (err e', s) f e h k = k

  chain_passed :
      (m : Result ℕ Stop × State) (f : ℕ → State → Result ℕ Stop × State) (a : ℕ)
      → m.0 ≡ ok a
      → continue m f ≡ f a m.1
  chain_passed (ok b, s) f a h = let same : b ≡ a = ground arith in ap (λ n. f n s) same
  chain_passed (err e, s) f a h = absurd (cc)

  stopped_rows :
      (rows : List (Model J C)) (sent : ℕ) (s t : State) (stop : Stop)
      → All (λ r. row_of s r.id ≡ some r) rows
      → AllApart (map (λ r. r.id) rows)
      → All (IsCounted J C D R L p now) rows
      → sent + length rows < 2 ^ 32
      → drain_rows J C D R p rows now sent s ≡ (err stop, t)
      → RowsStopped rows s t stop
  unfolding drain_rows
  stopped_rows [] sent s t stop held apart counted small h = absurd (not_both J C D R L p now h)
  stopped_rows (row ∷ rows) sent s t stop held apart counted small h =
      let step = drain_row J C D R p row now sent s in
      let later = λ (n : ℕ) (u : State). drain_rows J C D R p rows now n u in
      let rest = stopped_rows rows in
      elim (Result-cases step.0) [
        | inr (e, failing) ↦ stopped_here row rows s t stop apart.0 held.1 (
            stopped_at J C D R L p now row sent s t stop held.0 counted.0 (omega arith)
              (chain_failed step later e failing h))
        | inl (m, first) ↦
            let u = step.1 in
            let done =
              drained_row J C D R L p now row sent m s u held.0 counted.0 (omega arith)
                (pair_of J C D R L p now first) in
            stopped_later row rows sent m s u t stop apart.0 done (
              rest m u t stop (All-held J C D R L p now row rows s u apart.0 done.1 held.1) apart.1
                counted.1 (grown J C D R L p now row sent m s u (length rows) done small)
                (sym (chain_passed step later m first) ∙ h))
      ]

  -- A round that stops early, on a table whose attempts can still be counted and with a limit below
  -- 2 ^ 32, stops with an internal error and not with a panic, and no event has left a stream. Either
  -- the query failed, and no row has changed; or the rows before some row are each marked as sent, with
  -- their event in the stream, or rescheduled as documented, that row itself is as it was or done
  -- in one of these two ways, the rows behind it are as they were, and no other row has changed.
  pub drain_once-LeftOver :
      (limit : ℕ) (s t : State) (stop : Stop)
      → ((id : ℕ) (r : Model J C) → row_of s id ≡ some r → IsCounted J C D R L p now r)
      → limit < 2 ^ 32
      → drain_once J C D R p limit now s ≡ (err stop, t)
      → IsInternalStop J C D R L p now stop
        × Keeps J C D R L p now s t
        × (((id : ℕ) → row_of t id ≡ row_of s id)
            ⊎ ((rows : List (Model J C)) × ((fetch_due J C D limit now s).0 ≡ ok rows)
                × LeftOver t rows
                × ((id : ℕ) → Any (λ r. id ≡ r.id) rows ⊎ (row_of t id ≡ row_of s id))))
  unfolding drain_once fetch_due
  drain_once-LeftOver limit s t stop counted small h =
      let query = due J C limit now in
      let u = (D.select query s).1 in
      let fetch_keeps : Keeps J C D R L p now s u = λ other (json, shown, was). (
        json,
        shown,
        L.select-streams query (stream_name other.event_type) other.event_type json s was,
      ) in
      elim (stopped J C D R L p now (D.select query s) (λ rows v. drain_rows J C D R p rows now 0 v)
        h) [
          | inl (inner, same) ↦ (
            inner,
            subst (Keeps J C D R L p now s) same fetch_keeps,
            inl (λ id. ap (λ v. row_of v id) (sym same) ∙ L.select-keeps query id s),
          )
          | inr (rows, fetched, drained) ↦
              let held = L.select-held query rows s fetched in
              let counted' =
                All-IsCounted J C D R L p now rows u
                  (λ id r same. counted id r (sym (L.select-keeps query id s) ∙ same)) held in
              let few = L.select-limited query rows s fetched in
              let (inner, left, others, kept) =
                stopped_rows rows 0 u t stop held (L.select-apart query rows s fetched) counted'
                  (omega arith) drained in
              (
                inner,
                λ other was. kept other (fetch_keeps other was),
                inr (
                  rows,
                  ap (map_err internal) fetched,
                  left,
                  λ id. elim (among J C D R L p now id rows) [
                    | inl one ↦ inl one
                    | inr far ↦ inr (others id far ∙ L.select-keeps query id s)
                  ],
                ),
              )
        ]
