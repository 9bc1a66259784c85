-- ===== src/Bus/Outbox/Draining.antt =====
-- What a round of `drain_once` leaves in the table and in the streams.
use oa_libs.Base.{
  continue-eq-ok, length, map, All, ◌∙◌, sym, inl, ap, subst, inr, ◌⊎◌, ◌≢◌, ℕ, suc, ◌^◌, ◌<◌, ◌≡◌,
  refl, some, List, [], ◌∷◌, Result, ok, err, arith,
}
use oa_libs.Bus.Outbox.Publishing.{Logged, Keeps, Enters, publish-Enters}
use oa_libs.Bus.Outbox.Rows.{
  answered, IsCounted, IsRescheduled, LeavesOthers, sent_row, retried_row,
}
use oa_libs.Bus.Outbox.Table.{AllApart, TableLaws, patched}
use oa_libs.Bus.Outbox.{settle_row, drain_row, drain_rows, Model, Database, sent_patch, retry_patch}
use oa_libs.Deps.{Json, Chrono}
use oa_libs.Std.Text.{Text}
use oa_libs.Std.Int.{pos, Profile}
use oa_libs.Common.Error.{AppError, to_string}
use oa_libs.Bus.Message.{Wire, stream_name}
use oa_libs.Bus.Client.{Redis, publish}
use oa_libs.Bus.Outbox.Backoff.{documented}
use Prim.Native.Nat.{◌+◌}

module _ (J : Json) (C : Chrono) {State : Type 0} {W : Wire J.Value} (D : Database J C State)
    (R : Redis J W State) (L : TableLaws J C D R) (p : Profile) (now : C.DateTime) where
  open L use {row_of, Entered}

  -- What a round has done to the rows of its batch, by what it leaves, and how many it has sent. A row
  -- is sent, and then its event is in the stream; or it waits for as long as documented.
  pub data Settled (s : State) : List (Model J C) → ℕ → Type 0 where
    nothing : Settled s [] 0
    delivered :
        {row : Model J C} {rows : List (Model J C)} {n : ℕ}
        → Logged J C D R L p now s row
        → row_of s row.id ≡ some (patched J C (sent_patch J C now) row)
        → Settled s rows n
        → Settled s (row ∷ rows) (suc n)
    rescheduled :
        {row : Model J C} {rows : List (Model J C)} {n : ℕ} (before : ℕ) (error : AppError)
        → row.attempts ≡ pos before
        → row_of s row.id
          ≡ some (
              patched J C
                (retry_patch J C
                  (pos (suc before))
                  (C.add_seconds now (documented (suc before)))
                  (to_string error))
                row)
        → Settled s rows n
        → Settled s (row ∷ rows) n

  -- All that a round of the loop has done.
  abbrev pub RowDone : Model J C → ℕ → ℕ → State → State → Type 0
  RowDone row sent n s t =
      (((n ≡ suc sent)
          × Logged J C D R L p now t row
          × (row_of t row.id ≡ some (patched J C (sent_patch J C now) row)))
        ⊎ ((n ≡ sent) × IsRescheduled J C D R L p now row t))
      × LeavesOthers J C D R L p now row s t
      × Keeps J C D R L p now s t

  settled_row :
      (row : Model J C) (sent n : ℕ) (s t : State) (m : Result Text AppError × State)
      → Enters J C D R L p now row s m
      → row_of s row.id ≡ some row
      → IsCounted J C D R L p now row
      → suc sent < 2 ^ 32
      → settle_row J C D R p row now sent m ≡ (ok n, t)
      → RowDone row sent n s t
  unfolding settle_row
  settled_row row sent n s t (ok id, u) (rows, kept, logged) held counted small h =
      let (done, others, kept') =
        sent_row J C D R L p now row sent n u t (rows row.id ∙ held) small h in
      (
        inl (done.0, kept' row (logged id refl), done.1),
        λ other apart. others other apart ∙ rows other,
        λ other was. kept' other (kept other was),
      )
  settled_row row sent n s t (err error, u) (rows, kept, logged) held counted small h =
      let (done, others, kept') =
        retried_row J C D R L p now row sent n error u t (rows row.id ∙ held) counted h in
      (
        inr done,
        λ other apart. others other apart ∙ rows other,
        λ other was. kept' other (kept other was),
      )

  pub drained_row :
      (row : Model J C) (sent n : ℕ) (s t : State)
      → row_of s row.id ≡ some row
      → IsCounted J C D R L p now row
      → suc sent < 2 ^ 32
      → drain_row J C D R p row now sent s ≡ (ok n, t)
      → RowDone row sent n s t
  unfolding drain_row
  drained_row row sent n s t =
      settled_row row sent n s t (publish R row.event_type row.payload s)
        (publish-Enters J C D R L p now row s)

  -- All that the loop has done.
  abbrev pub RowsDone : List (Model J C) → ℕ → ℕ → State → State → Type 0
  RowsDone rows sent n s t =
      ((k : ℕ) × (n ≡ sent + k) × Settled t rows k)
      × ((id : ℕ) → All (λ m. id ≢ m) (map (λ r. r.id) rows) → row_of t id ≡ row_of s id)
      × Keeps J C D R L p now s t

  more_done :
      (row : Model J C) (rows : List (Model J C)) (sent m n : ℕ) (s t u : State)
      → All (λ k. row.id ≢ k) (map (λ r. r.id) rows)
      → RowDone row sent m s t
      → RowsDone rows m n t u
      → RowsDone (row ∷ rows) sent n s u
  more_done row rows sent m n s t u apart (done, others, kept) ((k, count, settled), rest, kept') =
      (
        elim done [
          | inl (one, logged, now_sent) ↦ (
            suc k,
            omega arith,
            delivered (kept' row logged) (rest row.id apart ∙ now_sent) settled,
          )
          | inr (none_more, (before, error, counted, waits)) ↦
              (k, omega arith, rescheduled before error counted (rest row.id apart ∙ waits) settled)
        ],
        λ id far. rest id far.1 ∙ others id (λ same. far.0 (sym same)),
        λ other was. kept' other (kept other was),
      )

  pub All-held :
      (row : Model J C) (rows : List (Model J C)) (s t : State)
      → All (λ k. row.id ≢ k) (map (λ r. r.id) rows)
      → LeavesOthers J C D R L p now row s t
      → All (λ r. row_of s r.id ≡ some r) rows
      → All (λ r. row_of t r.id ≡ some r) rows
  All-held row [] s t apart others held = tt
  All-held row (r ∷ rows) s t apart others held =
      (others r.id apart.0 ∙ held.0, All-held row rows s t apart.1 others held.1)

  pub pair_of : {A E S : Type 0} {m : Result A E × S} {a : A} → m.0 ≡ ok a → m ≡ (ok a, m.1)
  pair_of {m = m} h = ap (λ r. (r, m.1)) h

  pub grown :
      (row : Model J C) (sent m : ℕ) (s u : State) (k : ℕ)
      → RowDone row sent m s u
      → sent + suc k < 2 ^ 32
      → m + k < 2 ^ 32
  grown row sent m s u k (inl (one, logged, now_sent), others, kept) small = omega arith
  grown row sent m s u k (inr (same, waits), others, kept) small = omega arith

  pub drained_rows :
      (rows : List (Model J C)) (sent n : ℕ) (s t : State)
      → All (λ r. row_of s r.id ≡ some r) rows
      → AllApart (map (λ r. r.id) rows)
      → All (IsCounted J C D R L p now) rows
      → sent + length rows < 2 ^ 32
      → drain_rows J C D R p rows now sent s ≡ (ok n, t)
      → RowsDone rows sent n s t
  unfolding drain_rows
  drained_rows [] sent n s t held apart counted small h =
      let (same, state) = answered J C D R L p now h in
      (
        (0, ground (arith, same), nothing),
        λ id far. sym (ap (λ v. row_of v id) state),
        λ other (json, shown, was). (
          json,
          shown,
          subst (λ v. Entered v (stream_name other.event_type) other.event_type json) state was,
        ),
      )
  drained_rows (row ∷ rows) sent n s t held apart counted small h =
      let (m, first, rest) =
        continue-eq-ok (drain_row J C D R p row now sent s)
          (λ sent' u. drain_rows J C D R p rows now sent' u) (ap (λ v. v.0) h) in
      let u = (drain_row J C D R p row now sent s).1 in
      let done = drained_row row sent m s u held.0 counted.0 (omega arith) (pair_of first) in
      more_done row rows sent m n s u t apart.0 done (
        drained_rows rows m n u t (All-held row rows s u apart.0 done.1 held.1) apart.1 counted.1
          (grown row sent m s u (length rows) done small) (sym rest ∙ h))
