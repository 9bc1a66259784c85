-- ===== src/Bus/Outbox/Rows.antt =====
-- What one round of the loop of `drain_once` does to its row, to the other rows and to the streams.
use oa_libs.Bus.Outbox.Backoff.{backoff_seconds_exact, documented}
use oa_libs.Std.Int.{settle_of_fits, negsuc, settle, ℤ, ◌+ℤ◌, pos, Profile}
use oa_libs.Bus.Outbox.{
  backoff_seconds, Patch, as_internal, or_failed, mark_retry, Stop, increment, or_panic,
  settle_retry, mark_sent, settle_sent, Model, Database, sent_patch, retry_patch,
}
use oa_libs.Base.{
  ◌∙◌, sym, ap, subst, ◌≢◌, ℕ, suc, ◌-◌, ◌^◌, ◌<◌, ◌≡◌, refl, some, Result, ok, err, continue,
  arith,
}
use oa_libs.Deps.{Json, Chrono}
use oa_libs.Std.Text.{Text}
use oa_libs.Common.Error.{AppError, to_string}
use oa_libs.Bus.Message.{Wire, stream_name}
use oa_libs.Bus.Client.{Redis}
use oa_libs.Bus.Outbox.Table.{TableLaws, patched}
use oa_libs.Bus.Outbox.Publishing.{Keeps}

module _ (J : Json) (C : Chrono) {State : Type 0} {W : Wire J.Value} (D : Database J C State)
    (R : Redis J W State) (L : TableLaws J C D R) (p : Profile) (now : C.DateTime) where
  open L use {row_of, Entered}

  -- The number of attempts of a row can still be counted.
  abbrev pub IsCounted : Model J C → Type 0
  IsCounted row = (before : ℕ) × (row.attempts ≡ pos before) × (before < 2 ^ 31 - 1)

  -- What is known of a call that the `?` operator passed.
  pub passed :
      {A B : Type 0} (m : Result A Text × State) (f : A → State → Result B Stop × State) {b : B}
      {t : State}
      → continue (or_failed (as_internal J C m)) f ≡ (ok b, t)
      → (a : A) × (m.0 ≡ ok a) × (f a m.1 ≡ (ok b, t))
  passed (ok a, s) f h = (a, refl, h)
  passed (err text, s) f h = absurd (cc)

  pub increment_of_small : (sent : ℕ) → suc sent < 2 ^ 32 → increment p sent ≡ some (suc sent)
  unfolding increment
  increment_of_small sent h = ground arith

  -- The row waits for as long as documented, with one more attempt.
  abbrev pub IsRescheduled : Model J C → State → Type 0
  IsRescheduled row t =
      (before : ℕ) × (error : AppError) × (row.attempts ≡ pos before)
      × (row_of t row.id
          ≡ some (
              patched J C
                (retry_patch J C (pos (suc before)) (C.add_seconds now (documented (suc before)))
                  (to_string error))
                row))

  abbrev pub LeavesOthers : Model J C → State → State → Type 0
  LeavesOthers row s t = (id : ℕ) → row.id ≢ id → row_of t id ≡ row_of s id

  -- An update, whether or not it succeeds, leaves the other rows and what was logged.
  pub update_leaves :
      (row : Model J C) (patch : Patch J C) (s t : State)
      → (D.update row.id patch s).1 ≡ t
      → LeavesOthers row s t × Keeps J C D R L p now s t
  update_leaves row patch s t same = (
    λ id apart. sym (ap (λ v. row_of v id) same) ∙ L.update-apart row.id id patch s apart,
    λ other (json, shown, logged). (
      json,
      shown,
      subst (λ v. Entered v (stream_name other.event_type) other.event_type json) same
          (L.update-keeps row.id patch (stream_name other.event_type) other.event_type json s
            logged),
    ),
  )

  changed :
      (row : Model J C) (patch : Patch J C) (s t : State) {u : Unit {0}}
      → row_of s row.id ≡ some row
      → (D.update row.id patch s).0 ≡ ok u
      → (D.update row.id patch s).1 ≡ t
      → (row_of t row.id ≡ some (patched J C patch row))
        × LeavesOthers row s t
        × Keeps J C D R L p now s t
  changed row patch s t held done same =
      let (others, kept) = update_leaves row patch s t same in
      (
        subst (λ v. row_of v row.id ≡ some (patched J C patch row)) same
            (L.update-patches row.id patch row s done held),
        others,
        kept,
      )

  pub answered :
      {A : Type 0} {a b : A} {s t : State}
      → Path (Result A Stop × State) (ok a, s) (ok b, t)
      → (a ≡ b) × (s ≡ t)
  answered h = let first = ap (λ m. m.0) h in (cc, ap (λ m. m.1) h)

  pub sent_row :
      (row : Model J C) (sent n : ℕ) (s t : State)
      → row_of s row.id ≡ some row
      → suc sent < 2 ^ 32
      → settle_sent J C D R p row now sent s ≡ (ok n, t)
      → ((n ≡ suc sent) × (row_of t row.id ≡ some (patched J C (sent_patch J C now) row)))
        × LeavesOthers row s t
        × Keeps J C D R L p now s t
  unfolding settle_sent mark_sent
  sent_row row sent n s t held small h =
      let (u, done, rest) =
        passed (D.update row.id (sent_patch J C now) s) (λ _ v. or_panic (increment p sent) v) h in
      let (count, same) = answered (
        subst (λ o. or_panic o (D.update row.id (sent_patch J C now) s).1 ≡ (ok n, t))
          (increment_of_small sent small) rest) in
      let (now_sent, others, kept) = changed row (sent_patch J C now) s t held done same in
      ((sym count, now_sent), others, kept)

  next_attempt :
      (attempts : ℤ) (before : ℕ) → attempts ≡ pos before → attempts +ℤ pos 1 ≡ pos (suc before)
  unfolding ◌+ℤ◌
  next_attempt (pos n) before h = ground arith
  next_attempt (negsuc n) before h = absurd (cc)

  counted_attempt :
      (attempts : ℤ) (before : ℕ)
      → attempts ≡ pos before
      → before < 2 ^ 31 - 1
      → settle p 31 (attempts +ℤ pos 1) ≡ some (pos (suc before))
  counted_attempt attempts before h small =
      rw (next_attempt attempts before h) (settle_of_fits p 31 (pos (suc before)) (ground arith))

  wait_of_small :
      (before : ℕ)
      → before < 2 ^ 31 - 1
      → backoff_seconds p (pos (suc before)) ≡ some (documented (suc before))
  wait_of_small before small = (backoff_seconds_exact p before small).0

  pub retry_shape :
      (row : Model J C) (sent : ℕ) (error : AppError) (s : State) (before : ℕ)
      {m : Result ℕ Stop × State}
      → row.attempts ≡ pos before
      → before < 2 ^ 31 - 1
      → settle_retry J C D R p row now sent error s ≡ m
      → continue
          (or_failed (
            as_internal J C (
              D.update row.id
                (retry_patch J C
                  (pos (suc before))
                  (C.add_seconds now (documented (suc before)))
                  (to_string error))
                s)))
          (λ _ v. (ok sent, v))
        ≡ m
  unfolding settle_retry mark_retry
  retry_shape row sent error s before counted small h =
      let shape : settle_retry J C D R p row now sent error s
          ≡ continue
              (or_failed (
                as_internal J C (
                  D.update row.id
                    (retry_patch J C (pos (suc before))
                      (C.add_seconds now (documented (suc before))) (to_string error))
                    s)))
              (λ _ v. (ok sent, v)) =
        rw
          (
            settle_retry,
            counted_attempt row.attempts before counted small,
            wait_of_small before small,
          )
          refl in
      sym shape ∙ h

  pub retried_row :
      (row : Model J C) (sent n : ℕ) (error : AppError) (s t : State)
      → row_of s row.id ≡ some row
      → IsCounted row
      → settle_retry J C D R p row now sent error s ≡ (ok n, t)
      → ((n ≡ sent) × IsRescheduled row t) × LeavesOthers row s t × Keeps J C D R L p now s t
  retried_row row sent n error s t held (before, counted, small) h =
      let seconds = documented (suc before) in
      let patch =
        retry_patch J C (pos (suc before)) (C.add_seconds now seconds) (to_string error) in
      let (u, done, rest) =
        passed (D.update row.id patch s) (λ _ v. (ok sent, v))
          (retry_shape row sent error s before counted small h) in
      let (count, same) = answered rest in
      let (waits, others, kept) = changed row patch s t held done same in
      ((sym count, (before, error, counted, waits)), others, kept)
