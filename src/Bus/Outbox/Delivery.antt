-- ===== src/Bus/Outbox/Delivery.antt =====
-- What the next round does with an event that was enqueued: `enqueue` and `drain_once` together.
use oa_libs.Base.{
  ℕ, suc, ◌^◌, ◌<◌, ◌≡◌, ◌⊎◌, inl, inr, refl, sym, ◌∙◌, ap, ap₂, subst, some, false, List, Any,
  length, Result, ok, err, map_err, continue, arith,
}
use oa_libs.Deps.{Json, Chrono}
use oa_libs.Std.Text.{Text}
use oa_libs.Std.Int.{Profile, pos}
use oa_libs.Common.Error.{AppError, internal, to_string}
use oa_libs.Bus.Message.{Wire}
use oa_libs.Bus.Client.{Redis}
use oa_libs.Bus.Outbox.{
  Model, Database, as_internal, new_row, sent_patch, retry_patch, enqueue, fetch_due, due,
  drain_once,
}
use oa_libs.Bus.Outbox.Backoff.{documented, documented_first}
use oa_libs.Bus.Outbox.Table.{TableLaws, patched}
use oa_libs.Bus.Outbox.Publishing.{Logged}
use oa_libs.Bus.Outbox.Rows.{IsCounted}
use oa_libs.Bus.Outbox.Draining.{Settled, nothing, delivered, rescheduled}
use oa_libs.Bus.Outbox.Round.{drain_once-Settled}

module _ (J : Json) (C : Chrono) {State : Type 0} {W : Wire J.Value} (D : Database J C State)
    (R : Redis J W State) (L : TableLaws J C D R) (p : Profile) (now : C.DateTime) where
  open L use {row_of}

  -- The event of the row, which had no attempt yet, is in the stream of its module and the row is
  -- marked as sent; or the row has one attempt, its error, and waits for five seconds.
  abbrev pub FirstTried : State → Model J C → Type 0
  FirstTried t row =
      (Logged J C D R L p now t row
        × (row_of t row.id ≡ some (patched J C (sent_patch J C now) row)))
      ⊎ ((error : AppError) × (row_of t row.id
            ≡ some (
                patched J C (retry_patch J C (pos 1) (C.add_seconds now 5) (to_string error)) row)))

  first_count : {before : ℕ} (n : ℕ) → pos n ≡ pos before → before ≡ n
  first_count n h = ground arith

  rescheduled_first :
      (row : Model J C) (t : State) (before : ℕ) (error : AppError)
      → row.attempts ≡ pos 0
      → row.attempts ≡ pos before
      → row_of t row.id
        ≡ some (
            patched J C
              (retry_patch J C
                (pos (suc before))
                (C.add_seconds now (documented (suc before)))
                (to_string error))
              row)
      → FirstTried t row
  rescheduled_first row t before error fresh counted waits =
      let none_before = first_count 0 (sym fresh ∙ counted) in
      let first : documented (suc before) ≡ 5 =
        ap (λ k. documented (suc k)) none_before ∙ documented_first in
      inr (
        error,
        waits
            ∙ ap₂
                (λ k wait. some (
                  patched J C
                    (retry_patch J C (pos (suc k)) (C.add_seconds now wait) (to_string error)) row))
                none_before first,
      )

  settled_member :
      (row : Model J C) (t : State) {rows : List (Model J C)} {n : ℕ}
      → Settled J C D R L p now t rows n
      → row.attempts ≡ pos 0
      → Any (λ r. r ≡ row) rows
      → FirstTried t row
  settled_member row t nothing fresh member = absurd member
  settled_member row t (delivered logged marked rest) fresh (inl same) =
      subst (FirstTried t) same (inl (logged, marked))
  settled_member row t (delivered logged marked rest) fresh (inr later) =
      settled_member row t rest fresh later
  settled_member row t (rescheduled before error counted waits rest) fresh (inl same) =
      subst (FirstTried t) same
        (rescheduled_first _ t before error (ap (λ r. r.attempts) same ∙ fresh) counted waits)
  settled_member row t (rescheduled before error counted waits rest) fresh (inr later) =
      settled_member row t rest fresh later

  inserted-ok :
      (m : Result (Unit {0}) Text × State) (id : ℕ) {id' : ℕ}
      → (continue (as_internal J C m) (λ _ t. (ok id, t))).0 ≡ ok id'
      → (m.0 ≡ ok tt) × ((continue (as_internal J C m) (λ _ t. (ok id, t))).1 ≡ m.1)
  inserted-ok (ok done, s) id h = (refl, refl)
  inserted-ok (err text, s) id h = absurd (cc)

  selected-ok :
      (m : Result (List (Model J C)) Text) {rows : List (Model J C)}
      → map_err internal m ≡ ok rows
      → m ≡ ok rows
  selected-ok (ok rows) h = ground arith
  selected-ok (err text) h = absurd (cc)

  ok_same :
      {a b : List (Model J C)} → Path (Result (List (Model J C)) AppError) (ok a) (ok b) → a ≡ b
  ok_same h = ground arith

  -- An event that was enqueued for a time that is not after now is tried by the next round that
  -- returns, if the round fetches fewer rows than its limit, which is below 2 ^ 32, and all attempts
  -- can still be counted: the event is in the stream of its module, with the payload as JSON, and its
  -- row is marked as sent; or its row is still there, pending, with one attempt and the error, and
  -- may be fetched again in five seconds.
  pub drain_once-enqueue :
      (id : ℕ) (event_type : Text) (payload : J.Value) (then : C.DateTime) (limit n : ℕ)
      (rows : List (Model J C)) (s t : State)
      → (enqueue J C D id event_type payload then s).0 ≡ ok id
      → C.before now then ≡ false
      → ((other : ℕ) (r : Model J C)
          → row_of (enqueue J C D id event_type payload then s).1 other ≡ some r
          → IsCounted J C D R L p now r)
      → limit < 2 ^ 32
      → (fetch_due J C D limit now (enqueue J C D id event_type payload then s).1).0 ≡ ok rows
      → length rows < limit
      → drain_once J C D R p limit now (enqueue J C D id event_type payload then s).1 ≡ (ok n, t)
      → FirstTried t (new_row J C id event_type payload then)
  unfolding enqueue fetch_due new_row
  drain_once-enqueue id event_type payload then limit n rows s t entered soon counted small fetched
        few round =
      let row = new_row J C id event_type payload then in
      let u = (enqueue J C D id event_type payload then s).1 in
      let (inserted, state) = inserted-ok (D.insert row s) id entered in
      let held : row_of u row.id ≡ some row =
        ap (λ v. row_of v row.id) state ∙ L.insert-holds row s inserted in
      let (rows', fetched', _, _, settled, _, _) =
        drain_once-Settled J C D R L p now limit n u t counted small round in
      let picked = selected-ok (D.select (due J C limit now) u).0 fetched' in
      let few' : length rows' < limit =
        subst (λ l. length l < limit) (ok_same (sym fetched ∙ fetched')) few in
      settled_member row t settled refl
        (L.select-complete (due J C limit now) rows' row u picked few' held refl soon)
