-- ===== src/Bus/Outbox/Consuming.antt =====
-- From the outbox to a consumer: what `Bus::read_group` of crates/bus/src/client.rs reads of the events that a
-- round of `drain_once` in crates/bus/src/outbox.rs has published.
mod Examples
use mathlib.Core.Bool.{false≢true}
use oa_libs.Base.{
  append-nil, ℕ, ◌≡◌, ◌≢◌, ◌⊎◌, inl, inr, refl, sym, ap, ap₂, subst, ◌∙◌, Bool-cases, List, [], ◌∷◌,
  ◌++◌, map, All, ok, if◌then◌else◌, arith,
}
use oa_libs.Deps.{Json, Chrono}
use oa_libs.Std.Text.{Text, codes, text_eq}
use oa_libs.Std.Text.Laws.{text_eq_iff}
use oa_libs.Std.Utf8.{as_bytes}
use oa_libs.Std.Utf8.Decode.{IsScalar}
use oa_libs.Std.Int.{Profile}
use oa_libs.Bus.Message.{Wire, stream_name}
use oa_libs.Bus.Message.RoundTrip.{
  WireLaws, Event, IsEvent, entry_reply, stream_reply, delivered, all_delivered,
}
use oa_libs.Bus.Client.{Redis, read_group, xreadgroup}
use oa_libs.Bus.Client.Groups.{read_group-all_delivered}
use oa_libs.Bus.Outbox.{Model, Database, drain_once, fetch_due}
use oa_libs.Bus.Outbox.Table.{TableLaws}
use oa_libs.Bus.Outbox.Log.{Logging, LogLaws, Ascending}
use oa_libs.Bus.Outbox.Order.{Published, finished, passed_over, entered, drain_once-Grown}

module _ {J : Json} {W : Wire J.Value} (V : WireLaws J W) where
  -- The reply of XREADGROUP for an entry under an id.
  abbrev pub logged_reply : Text → Logging → W.Reply
  logged_reply id e = V.array_of (
      V.bulk_of (as_bytes id)
      ∷ V.array_of (
          V.bulk_of (as_bytes (codes "eventType"))
          ∷ V.bulk_of (as_bytes e.event_type)
          ∷ V.bulk_of (as_bytes (codes "payload"))
          ∷ V.bulk_of (as_bytes e.payload)
          ∷ [])
      ∷ [])

  -- The replies for the entries of one stream.
  unfoldable pub logged_replies : Text → List (Text × Logging) → List W.Reply
  logged_replies name [] = []
  logged_replies name ((id, e) ∷ entries) =
      let rest = logged_replies name entries in
      if text_eq e.stream name then logged_reply id e ∷ rest else rest

  -- The reply of XREADGROUP on one stream.
  abbrev pub log_reply : Text → List (Text × Logging) → W.Reply
  log_reply name entries =
      V.array_of (
        V.array_of (V.bulk_of (as_bytes name) ∷ V.array_of (logged_replies name entries) ∷ []) ∷ [])

module _ (J : Json) (C : Chrono) {State : Type 0} {W : Wire J.Value} (D : Database J C State)
    (R : Redis J W State) (T : TableLaws J C D R) (L : LogLaws J C D R) (V : WireLaws J W) where
  open L use {log}

  -- The entry that a published row gives.
  abbrev pub entry_of : Model J C → Text → Logging
  entry_of row json = record {
    stream = stream_name row.event_type;
    event_type = row.event_type;
    payload = json;
  }

  -- The entries come from some of the rows, in their order, and the events are just those entries that stand
  -- in the stream `name`, with the types and payloads of their rows.
  pub data FromRows (name : Text)
      : List Logging → List (Event J.Value) → List (Model J C) → Type 0 where
    all_read : FromRows name [] [] []
    unpublished :
        {es : List Logging} {events : List (Event J.Value)} {row : Model J C}
        {rows : List (Model J C)}
        → FromRows name es events rows
        → FromRows name es events (row ∷ rows)
    elsewhere :
        {es : List Logging} {events : List (Event J.Value)} {row : Model J C}
        {rows : List (Model J C)} (json : Text)
        → stream_name row.event_type ≢ name
        → FromRows name es events rows
        → FromRows name (entry_of row json ∷ es) events (row ∷ rows)
    read_event :
        {es : List Logging} {events : List (Event J.Value)} {row : Model J C}
        {rows : List (Model J C)} (json id : Text)
        → stream_name row.event_type ≡ name
        → FromRows name es events rows
        → FromRows name
            (entry_of row json ∷ es)
            (record { id = id; event_type = row.event_type; payload = row.payload } ∷ events)
            (row ∷ rows)

  abbrev Scalars : Text × Logging → Type 0
  Scalars e = All IsScalar e.0 × All IsScalar e.1.event_type

  abbrev Readable : Text → List (Text × Logging) → List Logging → List (Model J C) → Type 0
  Readable name entries es rows =
      (events : List (Event J.Value)) × FromRows name es events rows
      × All (IsEvent J W V) events
      × (logged_replies V name entries ≡ map (entry_reply J W V) events)

  as_event :
      (id event_type json : Text) (payload : J.Value)
      → V.to_vec payload ≡ as_bytes json
      → logged_reply V id
          (record { stream = stream_name event_type; event_type = event_type; payload = json })
        ≡ entry_reply J W V (record { id = id; event_type = event_type; payload = payload })
  unfolding entry_reply
  as_event id event_type json payload same = rw (entry_reply, same) refl

  module _
      (same : (v : J.Value) (json : Text)
        → R.to_string v ≡ ok json
        → V.to_vec v ≡ as_bytes json) where
    readable :
        (name : Text) (entries : List (Text × Logging)) (es : List Logging)
        (rows : List (Model J C))
        → map (λ e. e.1) entries ≡ es
        → All Scalars entries
        → Published J C D R T L es rows
        → Readable name entries es rows
    unfolding logged_replies entry_reply
    readable name [] es rows form scalars finished = ([], all_read, tt, refl)
    readable name ((id, e) ∷ entries) es rows form scalars finished = absurd (cc)
    readable name entries es (row ∷ rows) form scalars (passed_over published) =
        let (events, from, valid, replies) = readable name entries es rows form scalars published in
        (events, unpublished from, valid, replies)
    readable name [] es (row ∷ rows) form scalars (entered json encoded published) = absurd (cc)
    readable name ((id, e) ∷ entries) es (row ∷ rows) form scalars
          (entered {es = later} json encoded published) =
        let first : e ≡ record {
          stream = stream_name row.event_type;
          event_type = row.event_type;
          payload = json;
        } =
          ground arith in
        let rest : map (λ e. e.1) entries ≡ later = ground arith in
        let (events, from, valid, replies) =
          readable name entries later rows rest scalars.1 published in
        elim (Bool-cases (text_eq (stream_name row.event_type) name)) [
          | inl here ↦ (
            record { id = id; event_type = row.event_type; payload = row.payload } ∷ events,
            read_event json id ((text_eq_iff (stream_name row.event_type) name).0 here) from,
            ((scalars.0.0, subst (λ l. All IsScalar l.event_type) first scalars.0.1), valid),
            rw (first, here)
                (ap₂ (λ a b. a ∷ b)
                  (as_event id row.event_type json row.payload (same row.payload json encoded))
                  replies),
          )
          | inr away ↦ (
            events,
            elsewhere json
                (λ e. false≢true (sym away ∙ (text_eq_iff (stream_name row.event_type) name).1 e))
                from,
            valid,
            rw (first, away, replies) refl,
          )
        ]

    -- A round of `drain_once`, whatever its outcome, followed by a consumer's read of one stream: either the
    -- query of the round failed and the log is as it was, or it gave rows by ascending id, the log has
    -- grown by an entry for each of some of these rows, and where some of these entries stand in
    -- the stream, the consumer reads one message for each of them and nothing else, in the order of the ids,
    -- with the type and the payload of its row. The conditions are that the two encoders of serde_json
    -- write the same bytes for a payload, that Redis answers the read with those entries of the stream
    -- that the round appended, under ids of its own, and that the texts are of Unicode characters.
    pub round_is_read :
        (p : Profile) (limit : ℕ) (now : C.DateTime) (name group consumer : Text)
        (count block_ms : ℕ) (s u : State)
        → let t = (drain_once J C D R p limit now s).1 in
          All IsScalar name
          → ((es : List Logging)
              → log t ≡ log s ++ es
              → (entries : List (Text × Logging)) × (map (λ e. e.1) entries ≡ es)
                × All Scalars entries
                × (logged_replies V name entries ≢ []
                    → R.query_value (xreadgroup (name ∷ []) group consumer count block_ms) t
                      ≡ (ok (log_reply V name entries), u)))
          → (log t ≡ log s)
            ⊎ ((rows : List (Model J C)) × (es : List Logging) × (events : List (Event J.Value))
                × ((fetch_due J C D limit now s).0 ≡ ok rows)
                × Ascending (map (λ r. r.id) rows)
                × (log t ≡ log s ++ es)
                × FromRows name es events rows
                × (events ≢ []
                    → read_group R (name ∷ []) group consumer count block_ms t
                      ≡ (ok (map (delivered J W V name) events), u)))
    unfolding stream_reply all_delivered
    round_is_read p limit now name group consumer count block_ms s u plain serves =
        let t = (drain_once J C D R p limit now s).1 in
        elim (drain_once-Grown J C D R T L p limit now s) [
          | inl nothing ↦ inl nothing
          | inr (rows, fetched, ascending, (es, grown, published)) ↦
              let (entries, form, scalars, answers) = serves es grown in
              let (events, from, valid, replies) =
                readable name entries es rows form scalars published in
              inr (
                rows,
                es,
                events,
                fetched,
                ascending,
                grown,
                from,
                λ some_left.
                    read_group-all_delivered R V ((name, events) ∷ []) group consumer count block_ms
                      t u (λ e. cc) ((plain, valid), tt)
                      (answers
                          (λ none_left. some_left (no_replies events (sym replies ∙ none_left)))
                        ∙ ap
                            (λ l. (
                              ok (
                                  V.array_of (
                                    V.array_of (V.bulk_of (as_bytes name) ∷ V.array_of l ∷ [])
                                    ∷ [])),
                              u,
                            ))
                            replies)
                    ∙ ap (λ l. (ok l, u)) (append-nil (map (delivered J W V name) events)),
              )
        ]
      where
        no_replies :
            (events : List (Event J.Value)) → map (entry_reply J W V) events ≡ [] → events ≡ []
        no_replies [] h = refl
        no_replies (e ∷ events) h = absurd (cc)
