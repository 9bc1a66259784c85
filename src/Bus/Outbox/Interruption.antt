-- ===== src/Bus/Outbox/Interruption.antt =====
-- What a round of `drain_once` leaves behind when an operation of the table fails.
use oa_libs.Base.{
  ℕ, suc, ◌^◌, ◌<◌, ◌≡◌, ◌⊎◌, inl, inr, refl, sym, ap, subst, ◌∙◌, some, Result, ok, err, continue,
  arith,
}
use mathlib.Core.Option.{some-injective}
use oa_libs.Deps.{Json, Chrono}
use oa_libs.Std.Text.{Text}
use oa_libs.Std.Int.{Profile, pos}
use oa_libs.Common.Error.{AppError, internal, to_string}
use oa_libs.Bus.Message.{Wire}
use oa_libs.Bus.Client.{Redis, publish}
use oa_libs.Bus.Outbox.{
  Model, Patch, Database, Stop, failed, as_internal, or_failed, or_panic, increment, sent_patch,
  retry_patch, settle_sent, settle_retry, settle_row, mark_sent, drain_row,
}
use oa_libs.Bus.Outbox.Backoff.{documented}
use oa_libs.Bus.Outbox.Table.{TableLaws, patched}
use oa_libs.Bus.Outbox.Publishing.{Keeps, Logged, Enters, publish-Enters}
use oa_libs.Bus.Outbox.Rows.{
  IsCounted, IsRescheduled, LeavesOthers, update_leaves, increment_of_small, retry_shape,
}

module _ (J : Json) (C : Chrono) {State : Type 0} {W : Wire J.Value} (D : Database J C State)
    (R : Redis J W State) (L : TableLaws J C D R) (p : Profile) (now : C.DateTime) where
  open L use {row_of}

  -- The round stopped with an internal error, and did not panic.
  abbrev pub IsInternalStop : Stop → Type 0
  IsInternalStop stop = (text : Text) × (stop ≡ failed (internal text))

  -- The row at which the round stopped: it is as it was, or it is marked as sent and its event is in the
  -- stream, or it is rescheduled, although the update of the table was answered by an error.
  abbrev pub HalfDone : State → Model J C → Type 0
  HalfDone t row =
      (row_of t row.id ≡ some row)
      ⊎ (Logged J C D R L p now t row
          × (row_of t row.id ≡ some (patched J C (sent_patch J C now) row)))
      ⊎ IsRescheduled J C D R L p now row t

  err_same : {A : Type 0} {a b : Stop} → Path (Result A Stop) (err a) (err b) → b ≡ a
  err_same h = ground arith

  pub not_both :
      {A : Type 0} {a : A} {stop : Stop} {s t : State}
      → Path (Result A Stop × State) (ok a, s) (err stop, t)
      → ⊥
  not_both h = let first = ap (λ m. m.0) h in cc

  -- An operation that `?` did not pass, or one behind it that failed.
  pub stopped :
      {A B : Type 0} (m : Result A Text × State) (f : A → State → Result B Stop × State)
      {stop : Stop} {t : State}
      → continue (or_failed (as_internal J C m)) f ≡ (err stop, t)
      → (IsInternalStop stop × (m.1 ≡ t)) ⊎ ((a : A) × (m.0 ≡ ok a) × (f a m.1 ≡ (err stop, t)))
  stopped (ok a, s) f h = inr (a, refl, h)
  stopped (err text, s) f h = inl ((text, err_same (ap (λ v. v.0) h)), ap (λ v. v.1) h)

  half_updated :
      (row : Model J C) (patch : Patch J C) (s t : State)
      → row_of s row.id ≡ some row
      → (D.update row.id patch s).1 ≡ t
      → (row_of t row.id ≡ some row) ⊎ (row_of t row.id ≡ some (patched J C patch row))
  half_updated row patch s t held same =
      subst (λ v. (row_of v row.id ≡ some row) ⊎ (row_of v row.id ≡ some (patched J C patch row)))
        same
        (elim (L.update-atomic row.id patch s) [
          | inl left ↦ inl (left ∙ held)
          | inr (m, at, done) ↦
              inr
                (done ∙ ap (λ r. some (patched J C patch r)) (some-injective m row (sym at ∙ held)))
        ])

  -- All that is left behind at the row where the round stopped.
  abbrev pub RowStopped : Model J C → State → State → Stop → Type 0
  RowStopped row s t stop =
      IsInternalStop stop
      × HalfDone t row
      × LeavesOthers J C D R L p now row s t
      × Keeps J C D R L p now s t

  stopped_sent :
      (row : Model J C) (sent : ℕ) (s t : State) (stop : Stop)
      → Logged J C D R L p now s row
      → row_of s row.id ≡ some row
      → suc sent < 2 ^ 32
      → settle_sent J C D R p row now sent s ≡ (err stop, t)
      → RowStopped row s t stop
  unfolding settle_sent mark_sent
  stopped_sent row sent s t stop logged held small h =
      elim (stopped (D.update row.id (sent_patch J C now) s) (λ _ v. or_panic (increment p sent) v)
        h) [
          | inl (inner, same) ↦
              let (others, kept) =
                update_leaves J C D R L p now row (sent_patch J C now) s t same in
              (
                inner,
                elim (half_updated row (sent_patch J C now) s t held same) [
                  | inl left ↦ inl left
                  | inr done ↦ inr (inl (kept row logged, done))
                ],
                others,
                kept,
              )
          | inr (a, _, rest) ↦ absurd (
              not_both (
                subst (λ o. or_panic o (D.update row.id (sent_patch J C now) s).1 ≡ (err stop, t))
                  (increment_of_small J C D R L p now sent small) rest))
        ]

  stopped_retry :
      (row : Model J C) (sent : ℕ) (error : AppError) (s t : State) (stop : Stop)
      → row_of s row.id ≡ some row
      → IsCounted J C D R L p now row
      → settle_retry J C D R p row now sent error s ≡ (err stop, t)
      → RowStopped row s t stop
  stopped_retry row sent error s t stop held (before, counted, few) h =
      let patch =
        retry_patch J C (pos (suc before)) (C.add_seconds now (documented (suc before)))
          (to_string error) in
      elim (stopped (D.update row.id patch s) (λ _ v. (ok sent, v))
        (retry_shape J C D R L p now row sent error s before counted few h)) [
          | inl (inner, same) ↦
              let (others, kept) = update_leaves J C D R L p now row patch s t same in
              (
                inner,
                elim (half_updated row patch s t held same) [
                  | inl left ↦ inl left
                  | inr done ↦ inr (inr (before, error, counted, done))
                ],
                others,
                kept,
              )
          | inr (a, _, rest) ↦ absurd (not_both rest)
        ]

  -- What holds behind a change that keeps the table and the streams holds from before it.
  behind :
      (row : Model J C) (s u t : State) (stop : Stop)
      → ((id : ℕ) → row_of u id ≡ row_of s id)
      → Keeps J C D R L p now s u
      → RowStopped row u t stop
      → RowStopped row s t stop
  behind row s u t stop rows kept (inner, half, others, kept') = (
    inner,
    half,
    λ id apart. others id apart ∙ rows id,
    λ other was. kept' other (kept other was),
  )

  stopped_row :
      (row : Model J C) (sent : ℕ) (s t : State) (stop : Stop) (m : Result Text AppError × State)
      → Enters J C D R L p now row s m
      → row_of s row.id ≡ some row
      → IsCounted J C D R L p now row
      → suc sent < 2 ^ 32
      → settle_row J C D R p row now sent m ≡ (err stop, t)
      → RowStopped row s t stop
  unfolding settle_row
  stopped_row row sent s t stop (ok id, u) (rows, kept, logged) held counted small h =
      behind row s u t stop rows kept
        (stopped_sent row sent u t stop (logged id refl) (rows row.id ∙ held) small h)
  stopped_row row sent s t stop (err error, u) (rows, kept, logged) held counted small h =
      behind row s u t stop rows kept
        (stopped_retry row sent error u t stop (rows row.id ∙ held) counted h)

  pub stopped_at :
      (row : Model J C) (sent : ℕ) (s t : State) (stop : Stop)
      → row_of s row.id ≡ some row
      → IsCounted J C D R L p now row
      → suc sent < 2 ^ 32
      → drain_row J C D R p row now sent s ≡ (err stop, t)
      → RowStopped row s t stop
  unfolding drain_row
  stopped_at row sent s t stop =
      stopped_row row sent s t stop (publish R row.event_type row.payload s)
        (publish-Enters J C D R L p now row s)
