-- ===== src/Bus/Outbox/Steps.antt =====
-- What one row of a round, and one call of the outbox, keeps of the ledger, whether or not it succeeds.
use mathlib.Core.Option.{some-injective}
use oa_libs.Base.{ℕ, ◌≡◌, ◌≢◌, refl, sym, subst, ◌∙◌, Option, none, some, Result, ok, err, continue}
use oa_libs.Deps.{Json, Chrono}
use oa_libs.Std.Text.{Text}
use oa_libs.Std.Int.{settle, ◌+ℤ◌, pos, ℤ, Profile}
use oa_libs.Common.Error.{AppError, to_string}
use oa_libs.Bus.Message.{Wire}
use oa_libs.Bus.Client.{Redis, publish}
use oa_libs.Bus.Outbox.{
  Model, Database, Stop, sent_patch, retry_patch, or_failed, or_panic, as_internal, settle_sent,
  settle_retry, mark_sent, mark_retry, settle_row, drain_row, increment, backoff_seconds,
}
use oa_libs.Bus.Outbox.Table.{TableLaws}
use oa_libs.Bus.Outbox.Publishing.{publish-Enters}
use oa_libs.Bus.Outbox.Ledger.{InStream, Safe, unchanged-Safe, update-Safe}

module _ (J : Json) (C : Chrono) {State : Type 0} {W : Wire J.Value} (D : Database J C State)
    (R : Redis J W State) (L : TableLaws J C D R) (p : Profile) where
  open L use {row_of, Entered}

  abbrev Right : State → State → Type 0
  Right o s = Safe J C D R L o s

  -- The state behind an operation whose errors are mapped is that behind the operation.
  pub or_failed_keeps :
      {A : Type 0} (P : State → Type 0) (m : Result A Text × State)
      (f : A → State → Result ℕ Stop × State)
      → P m.1
      → ((a : A) → m.0 ≡ ok a → P m.1 → P (f a m.1).1)
      → P (continue (or_failed (as_internal J C m)) f).1
  or_failed_keeps P (ok a, s) f h k = k a refl h
  or_failed_keeps P (err text, s) f h k = h

  or_panic_keeps :
      {A : Type 0} (P : State → Type 0) (o : Option A) (s : State)
      (f : A → State → Result ℕ Stop × State)
      → P s
      → ((a : A) → P (f a s).1)
      → P (continue (or_panic o s) f).1
  or_panic_keeps P (some a) s f h k = k a
  or_panic_keeps P none s f h k = h

  or_panic_state :
      {A : Type 0} (P : State → Type 0) (o : Option A) (s : State) → P s → P (or_panic o s).1
  or_panic_state P (some a) s h = h
  or_panic_state P none s h = h

  -- The branch of a published event keeps what an update with its patch keeps.
  pub sent_keeps :
      (P : State → Type 0) (row : Model J C) (now : C.DateTime) (sent : ℕ) (s : State)
      → P (D.update row.id (sent_patch J C now) s).1
      → P (settle_sent J C D R p row now sent s).1
  unfolding settle_sent mark_sent
  sent_keeps P row now sent s h =
      or_failed_keeps P (D.update row.id (sent_patch J C now) s)
        (λ _ t. or_panic (increment p sent) t) h λ _ _ k. or_panic_state P (increment p sent) _ k

  pub retry_keeps :
      (P : State → Type 0) (row : Model J C) (now : C.DateTime) (sent : ℕ) (error : AppError)
      (s : State)
      → P s
      → ((attempts : ℤ) (next_at : C.DateTime)
          → P (D.update row.id (retry_patch J C attempts next_at (to_string error)) s).1)
      → P (settle_retry J C D R p row now sent error s).1
  unfolding settle_retry mark_retry
  retry_keeps P row now sent error s h k =
      let finish : ℤ → ℕ → State → Result ℕ Stop × State = λ attempts seconds u.
        continue
          (or_failed
            (mark_retry J C D row.id attempts (C.add_seconds now seconds) (to_string error) u))
          (λ _ v. (ok sent, v)) in
      or_panic_keeps P (settle p 31 (row.attempts +ℤ pos 1)) s
        (λ attempts t. continue (or_panic (backoff_seconds p attempts) t) (finish attempts)) h
        λ attempts. or_panic_keeps P (backoff_seconds p attempts) s (finish attempts) h λ seconds.
          or_failed_keeps P
            (D.update row.id
              (retry_patch J C attempts (C.add_seconds now seconds) (to_string error)) s)
            (λ _ v. (ok sent, v)) (k attempts (C.add_seconds now seconds)) λ _ _ kept. kept

  settle_row-Safe :
      (o : State) (row : Model J C) (now : C.DateTime) (sent : ℕ) (m : Result Text AppError × State)
      → ((id : Text) → m.0 ≡ ok id → InStream J C D R L m.1 row)
      → row_of m.1 row.id ≡ some row
      → Right o m.1
      → Right o (settle_row J C D R p row now sent m).1
  unfolding settle_row retry_patch
  settle_row-Safe o row now sent (ok id, s) entered held safe =
      sent_keeps (Right o) row now sent s (
        update-Safe J C D R L o s row.id (sent_patch J C now)
          (λ r at marked.
            subst (InStream J C D R L s) (some-injective row r (sym held ∙ at)) (entered id refl))
          safe)
  settle_row-Safe o row now sent (err error, s) entered held safe =
      retry_keeps (Right o) row now sent error s safe λ attempts next_at.
        update-Safe J C D R L o s row.id (retry_patch J C attempts next_at (to_string error))
          (λ r at marked. safe.0 row.id r at marked) safe

  settle_row-others :
      (row : Model J C) (now : C.DateTime) (sent : ℕ) (m : Result Text AppError × State) (id : ℕ)
      → row.id ≢ id
      → row_of (settle_row J C D R p row now sent m).1 id ≡ row_of m.1 id
  unfolding settle_row retry_patch
  settle_row-others row now sent (ok key, s) id apart =
      sent_keeps (λ t. row_of t id ≡ row_of s id) row now sent s
        (L.update-apart row.id id (sent_patch J C now) s apart)
  settle_row-others row now sent (err error, s) id apart =
      retry_keeps (λ t. row_of t id ≡ row_of s id) row now sent error s refl
        λ attempts next_at.
          L.update-apart row.id id (retry_patch J C attempts next_at (to_string error)) s apart

  pub drain_row-others :
      (row : Model J C) (now : C.DateTime) (sent : ℕ) (s : State) (id : ℕ)
      → row.id ≢ id
      → row_of (drain_row J C D R p row now sent s).1 id ≡ row_of s id
  unfolding drain_row
  drain_row-others row now sent s id apart =
      settle_row-others row now sent (publish R row.event_type row.payload s) id apart
      ∙ (publish-Enters J C D R L p now row s).0 id

  pub drain_row-Safe :
      (o : State) (row : Model J C) (now : C.DateTime) (sent : ℕ) (s : State)
      → row_of s row.id ≡ some row
      → Right o s
      → Right o (drain_row J C D R p row now sent s).1
  unfolding drain_row
  drain_row-Safe o row now sent s held safe =
      let (rows, streams, entered) = publish-Enters J C D R L p now row s in
      settle_row-Safe o row now sent (publish R row.event_type row.payload s) entered
        (rows row.id ∙ held) (unchanged-Safe J C D R L o s _ rows streams safe)
