-- ===== src/Bus/Outbox/Order.antt =====
-- The order in which a round of `drain_once` publishes: what it appends to the log of the streams.
use oa_libs.Base.{
  ℕ, ◌≡◌, ◌⊎◌, inl, inr, refl, sym, ◌∙◌, ap, List, [], ◌∷◌, ◌++◌, append-nil, append_assoc, map,
  Result, ok, err, continue, map_err,
}
use oa_libs.Deps.{Json, Chrono}
use oa_libs.Std.Text.{Text}
use oa_libs.Std.Int.{Profile}
use oa_libs.Common.Error.{AppError, internal}
use oa_libs.Bus.Message.{Wire, stream_name}
use oa_libs.Bus.Client.{Redis, publish, internally, xadd}
use oa_libs.Bus.Outbox.{
  Model, Database, Stop, due, sent_patch, settle_row, drain_row, drain_rows, drain_once, fetch_due,
  as_internal, or_failed,
}
use oa_libs.Bus.Outbox.Table.{TableLaws}
use oa_libs.Bus.Outbox.Log.{Ascending, Logging, LogLaws, ordered_apart}
use oa_libs.Bus.Outbox.Steps.{sent_keeps, retry_keeps}

module _ (J : Json) (C : Chrono) {State : Type 0} {W : Wire J.Value} (D : Database J C State)
    (R : Redis J W State) (T : TableLaws J C D R) (L : LogLaws J C D R) where
  open L use {log}

  -- The entries are those of some of the rows, each row giving at most one, in the order of the rows.
  pub data Published : List Logging → List (Model J C) → Type 0 where
    finished : Published [] []
    passed_over :
        {es : List Logging} {row : Model J C} {rows : List (Model J C)}
        → Published es rows
        → Published es (row ∷ rows)
    entered :
        {es : List Logging} {row : Model J C} {rows : List (Model J C)} (json : Text)
        → R.to_string row.payload ≡ ok json
        → Published es rows
        → Published
            (record {
              stream = stream_name row.event_type;
              event_type = row.event_type;
              payload = json;
            }
              ∷ es)
            (row ∷ rows)

  all_passed_over : (rows : List (Model J C)) → Published [] rows
  all_passed_over [] = finished
  all_passed_over (row ∷ rows) = passed_over (all_passed_over rows)

  -- The log has grown by at most the entry of the row.
  abbrev OneMore : Model J C → State → State → Type 0
  OneMore row s t =
      (log t ≡ log s)
      ⊎ ((json : Text) × (R.to_string row.payload ≡ ok json)
          × (log t
              ≡ log s
                ++ record {
                  stream = stream_name row.event_type;
                  event_type = row.event_type;
                  payload = json;
                }
                  ∷ []))

  encoded-OneMore :
      (row : Model J C) (s : State) (json : Result Text Text)
      → R.to_string row.payload ≡ json
      → OneMore row s
          (continue
            (map_err internal json, s)
            (λ text t.
              internally
                (R.query_string (xadd (stream_name row.event_type) row.event_type text) t))).1
  encoded-OneMore row s (err text) h = inl refl
  encoded-OneMore row s (ok json) h =
      elim (L.xadd-log (stream_name row.event_type) row.event_type json s) [
        | inl same ↦ inl same
        | inr more ↦ inr (json, h, more)
      ]

  publish-OneMore :
      (row : Model J C) (s : State) → OneMore row s (publish R row.event_type row.payload s).1
  unfolding publish
  publish-OneMore row s = encoded-OneMore row s (R.to_string row.payload) refl

  settle_row-log :
      (p : Profile) (row : Model J C) (now : C.DateTime) (sent : ℕ)
      (m : Result Text AppError × State)
      → log (settle_row J C D R p row now sent m).1 ≡ log m.1
  unfolding settle_row
  settle_row-log p row now sent (ok id, u) =
      sent_keeps J C D R T p (λ t. log t ≡ log u) row now sent u
        (L.update-log row.id (sent_patch J C now) u)
  settle_row-log p row now sent (err error, u) =
      retry_keeps J C D R T p (λ t. log t ≡ log u) row now sent error u refl
        λ attempts next_at. L.update-log row.id _ u

  drain_row-OneMore :
      (p : Profile) (row : Model J C) (now : C.DateTime) (sent : ℕ) (s : State)
      → OneMore row s (drain_row J C D R p row now sent s).1
  unfolding drain_row
  drain_row-OneMore p row now sent s =
      let m = publish R row.event_type row.payload s in
      let kept = settle_row-log p row now sent m in
      elim (publish-OneMore row s) [
        | inl same ↦ inl (kept ∙ same)
        | inr (json, h, more) ↦ inr (json, h, kept ∙ more)
      ]

  -- The log has grown by entries of some of the rows.
  abbrev pub Grown : List (Model J C) → State → State → Type 0
  Grown rows s t = (es : List Logging) × (log t ≡ log s ++ es) × Published es rows

  Grown-step :
      (row : Model J C) (rows : List (Model J C)) (s u t : State)
      → OneMore row s u
      → Grown rows u t
      → Grown (row ∷ rows) s t
  Grown-step row rows s u t (inl same) (es, form, published) =
      (es, form ∙ ap (λ l. l ++ es) same, passed_over published)
  Grown-step row rows s u t (inr (json, h, more)) (es, form, published) =
      let e : Logging = record {
        stream = stream_name row.event_type;
        event_type = row.event_type;
        payload = json;
      } in
      (
        e ∷ es,
        form ∙ ap (λ l. l ++ es) more ∙ append_assoc (log s) (e ∷ []) es,
        entered json h published,
      )

  drain_rows-Grown :
      (p : Profile) (rows : List (Model J C)) (now : C.DateTime) (sent : ℕ) (s : State)
      → Grown rows s (drain_rows J C D R p rows now sent s).1
  unfolding drain_rows
  drain_rows-Grown p [] now sent s = ([], sym (append-nil (log s)), finished)
  drain_rows-Grown p (row ∷ rows) now sent s =
      chain (drain_row J C D R p row now sent s) (drain_row-OneMore p row now sent s)
        (λ n t. drain_rows-Grown p rows now n t)
    where
      chain :
          (m : Result ℕ Stop × State)
          → OneMore row s m.1
          → ((n : ℕ) (t : State) → Grown rows t (drain_rows J C D R p rows now n t).1)
          → Grown (row ∷ rows) s (continue m (λ sent' t. drain_rows J C D R p rows now sent' t)).1
      chain (ok n, u) one rest = Grown-step row rows s u _ one (rest n u)
      chain (err e, u) one rest =
          Grown-step row rows s u u one ([], sym (append-nil (log u)), all_passed_over rows)

  -- Whatever the outcome of a round, an error or a panic included, either its query failed and the log of
  -- the streams is as it was, or the query gave rows by ascending id and the log has grown at its end by
  -- entries of some of these rows: each row has at most one, that of its stream and event type
  -- with its payload, and the entries stand in the order of the ids.
  pub drain_once-Grown :
      (p : Profile) (limit : ℕ) (now : C.DateTime) (s : State)
      → let t = (drain_once J C D R p limit now s).1 in
        (log t ≡ log s)
        ⊎ ((rows : List (Model J C)) × ((fetch_due J C D limit now s).0 ≡ ok rows)
            × Ascending (map (λ r. r.id) rows)
            × Grown rows s t)
  unfolding drain_once fetch_due
  drain_once-Grown p limit now s =
      let query = due J C limit now in
      go (D.select query s) (L.select-log query s) λ rows h.
        ordered_apart J C D R rows (L.select-ordered query rows s h) (T.select-apart query rows s h)
    where
      go :
          (m : Result (List (Model J C)) Text × State)
          → log m.1 ≡ log s
          → ((rows : List (Model J C)) → m.0 ≡ ok rows → Ascending (map (λ r. r.id) rows))
          → let t =
              (continue
                (or_failed (as_internal J C m))
                (λ rows u. drain_rows J C D R p rows now 0 u)).1 in
            (log t ≡ log s)
            ⊎ ((rows : List (Model J C)) × (map_err internal m.0 ≡ ok rows)
                × Ascending (map (λ r. r.id) rows)
                × Grown rows s t)
      go (err text, u) same ascending = inl same
      go (ok rows, u) same ascending =
          let (es, form, published) = drain_rows-Grown p rows now 0 u in
          inr (rows, refl, ascending rows refl, (es, form ∙ ap (λ l. l ++ es) same, published))
