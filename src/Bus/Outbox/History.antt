-- ===== src/Bus/Outbox/History.antt =====
-- Any sequence of enqueues and rounds, with failures anywhere, loses no event.
use oa_libs.Bus.Outbox.{
  Stop, Query, Model, Database, sent_status, new_row, enqueue, due, drain_row, drain_rows,
  drain_once, fetch_due, as_internal,
}
use oa_libs.Bus.Message.{stream_name, Wire}
use mathlib.Core.Option.{some-injective}
use oa_libs.Base.{
  ℕ, ◌==◌, ==_iff, Bool-cases, ◌≡◌, ◌≢◌, ◌⊎◌, inl, inr, refl, sym, ap, subst, ◌∙◌, Option, none,
  some, List, [], ◌∷◌, map, All, Result, ok, err, continue, arith,
}
use oa_libs.Deps.{Json, Chrono}
use oa_libs.Std.Text.{Text}
use oa_libs.Std.Int.{Profile}
use oa_libs.Bus.Client.{Redis}
use oa_libs.Bus.Outbox.Table.{TableLaws, AllApart}
use oa_libs.Bus.Outbox.Ledger.{Delivered, Kept, StreamsKept, Safe, unchanged-Safe}
use oa_libs.Bus.Outbox.Steps.{drain_row-Safe, drain_row-others, or_failed_keeps}

module _ (J : Json) (C : Chrono) {State : Type 0} {W : Wire J.Value} (D : Database J C State)
    (R : Redis J W State) (L : TableLaws J C D R) where
  open L use {row_of, Entered}

  still_held :
      (p : Profile) (row : Model J C) (now : C.DateTime) (sent : ℕ) (s : State)
      (rows : List (Model J C))
      → All (λ k. row.id ≢ k) (map (λ r. r.id) rows)
      → All (λ r. row_of s r.id ≡ some r) rows
      → All (λ r. row_of (drain_row J C D R p row now sent s).1 r.id ≡ some r) rows
  still_held p row now sent s [] apart held = tt
  still_held p row now sent s (r ∷ rows) apart held = (
    drain_row-others J C D R L p row now sent s r.id apart.0 ∙ held.0,
    still_held p row now sent s rows apart.1 held.1,
  )

  drain_rows-Safe :
      (p : Profile) (o : State) (rows : List (Model J C)) (now : C.DateTime) (sent : ℕ) (s : State)
      → All (λ r. row_of s r.id ≡ some r) rows
      → AllApart (map (λ r. r.id) rows)
      → Safe J C D R L o s
      → Safe J C D R L o (drain_rows J C D R p rows now sent s).1
  unfolding drain_rows
  drain_rows-Safe p o [] now sent s held apart safe = safe
  drain_rows-Safe p o (row ∷ rows) now sent s held apart safe =
      let u = (drain_row J C D R p row now sent s).1 in
      let rest = drain_rows-Safe p o rows now in
      let held' = still_held p row now sent s rows apart.0 held.1 in
      step_Safe o (drain_row J C D R p row now sent s)
        (λ sent' t. drain_rows J C D R p rows now sent' t)
        (drain_row-Safe J C D R L p o row now sent s held.0 safe)
        (λ m safe'. rest m u held' apart.1 safe')
    where
      step_Safe :
          (o : State) (m : Result ℕ Stop × State) (f : ℕ → State → Result ℕ Stop × State)
          → Safe J C D R L o m.1
          → ((n : ℕ) → Safe J C D R L o m.1 → Safe J C D R L o (f n m.1).1)
          → Safe J C D R L o (continue m f).1
      step_Safe o (ok n, t) f h k = k n h
      step_Safe o (err e, t) f h k = h

  select_streams : (q : Query J C) (s : State) → StreamsKept J C D R L s (D.select q s).1
  select_streams q s r (json, shown, was) =
      (json, shown, L.select-streams q (stream_name r.event_type) r.event_type json s was)

  drain_once-Safe :
      (p : Profile) (o : State) (limit : ℕ) (now : C.DateTime) (s : State)
      → Safe J C D R L o s
      → Safe J C D R L o (drain_once J C D R p limit now s).1
  unfolding drain_once fetch_due
  drain_once-Safe p o limit now s safe =
      let q = due J C limit now in
      or_failed_keeps J C D R L p (Safe J C D R L o) (D.select q s)
        (λ rows t. drain_rows J C D R p rows now 0 t)
        (unchanged-Safe J C D R L o s (D.select q s).1 (λ id. L.select-keeps q id s)
          (select_streams q s) safe)
        (λ rows fetched safe'.
          drain_rows-Safe p o rows now 0 (D.select q s).1 (L.select-held q rows s fetched)
            (L.select-apart q rows s fetched) safe')

  insert_streams : (r : Model J C) (s : State) → StreamsKept J C D R L s (D.insert r s).1
  insert_streams r s other (json, shown, was) =
      (json, shown, L.insert-streams r (stream_name other.event_type) other.event_type json s was)

  -- An insert leaves a row alone, or adds the new one where there was none.
  insert_row :
      (r : Model J C) (s : State) (id : ℕ)
      → (row_of (D.insert r s).1 id ≡ row_of s id)
        ⊎ ((row_of s id ≡ none) × (row_of (D.insert r s).1 id ≡ some r))
  insert_row r s id = elim (Bool-cases (r.id == id)) [
    | inl same ↦
        subst
          (λ n.
            (row_of (D.insert r s).1 n ≡ row_of s n)
            ⊎ ((row_of s n ≡ none) × (row_of (D.insert r s).1 n ≡ some r)))
          ((==_iff r.id id).0 same) (L.insert-atomic r s)
    | inr differ ↦
        let apart : r.id ≢ id = ground (arith, differ) in inl (L.insert-apart r id s apart)
  ]

  insert-Safe :
      (o s : State) (r : Model J C)
      → r.status ≢ sent_status
      → Safe J C D R L o s
      → Safe J C D R L o (D.insert r s).1
  insert-Safe o s r unsent (delivered, kept, entries) = (
    λ id m at marked. elim (insert_row r s id) [
      | inl same ↦ insert_streams r s m (delivered id m (sym same ∙ at) marked)
      | inr (empty, added) ↦
          let e = some-injective r m (sym added ∙ at) in
          absurd (unsent (ap (λ n. n.status) e ∙ marked))
    ],
    λ id m at.
        let (m', at', kind, body) = kept id m at in
        elim (insert_row r s id) [
          | inl same ↦ (m', same ∙ at', kind, body)
          | inr (empty, added) ↦ absurd (no_row empty at')
        ],
    λ m was. insert_streams r s m (entries m was),
  )
    where
      no_row : {o : Option (Model J C)} {m : Model J C} → o ≡ none → o ≡ some m → ⊥
      no_row e h = cc

  pub enqueue-Safe :
      (o s : State) (id : ℕ) (event_type : Text) (payload : J.Value) (now : C.DateTime)
      → Safe J C D R L o s
      → Safe J C D R L o (enqueue J C D id event_type payload now s).1
  unfolding enqueue new_row
  enqueue-Safe o s id event_type payload now safe =
      answered_Safe o (D.insert (new_row J C id event_type payload now) s) id
        (insert-Safe o s (new_row J C id event_type payload now) (λ e. cc) safe)
    where
      answered_Safe :
          (o : State) (m : Result (Unit {0}) Text × State) (id : ℕ)
          → Safe J C D R L o m.1
          → Safe J C D R L o (continue (as_internal J C m) (λ _ t. (ok id, t))).1
      answered_Safe o (ok a, t) id h = h
      answered_Safe o (err e, t) id h = h

  -- A call of the outbox that may come next, whatever its arguments and its outcome.
  pub data Step (s : State) : State → Type 0 where
    enqueued :
        (id : ℕ) (event_type : Text) (payload : J.Value) (now : C.DateTime)
        → Step s (enqueue J C D id event_type payload now s).1
    drained :
        (p : Profile) (limit : ℕ) (now : C.DateTime) → Step s (drain_once J C D R p limit now s).1

  pub data History (s : State) : State → Type 0 where
    start : History s s
    then_step : {t u : State} → History s t → Step t u → History s u

  Step-Safe : (o : State) {s t : State} → Step s t → Safe J C D R L o s → Safe J C D R L o t
  Step-Safe o {s} (enqueued id event_type payload now) safe =
      enqueue-Safe o s id event_type payload now safe
  Step-Safe o {s} (drained p limit now) safe = drain_once-Safe p o limit now s safe

  History-Safe : {s t : State} → History s t → Safe J C D R L s s → Safe J C D R L s t
  History-Safe start safe = safe
  History-Safe {s} (then_step h step) safe = Step-Safe s step (History-Safe h safe)

  -- From a state in which every row that is marked as sent has its event in a stream, any sequence of
  -- enqueues and rounds, with any of their operations failing, leads to such a state again; on the way
  -- no row is lost, every row keeps its event, and no entry leaves a stream.
  pub History-Delivered :
      {s t : State}
      → History s t
      → Delivered J C D R L s
      → Delivered J C D R L t × Kept J C D R L s t × StreamsKept J C D R L s t
  History-Delivered {s} h delivered =
      History-Safe h (delivered, (λ id r at. (r, at, refl, refl)), (λ r was. was))
