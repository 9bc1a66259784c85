-- ===== src/Bus/Outbox/Publishing.antt =====
-- What `Bus::publish` does to the streams, and that it leaves the table alone.
use oa_libs.Std.Int.{Profile}
use oa_libs.Bus.Outbox.{Model, Database}
use oa_libs.Base.{map_err, ℕ, ◌≡◌, refl, Result, ok, err, continue, arith}
use oa_libs.Deps.{Json, Chrono}
use oa_libs.Std.Text.{Text}
use oa_libs.Common.Error.{AppError, internal}
use oa_libs.Bus.Message.{Wire, stream_name}
use oa_libs.Bus.Client.{Redis, publish, internally, xadd}
use oa_libs.Bus.Outbox.Table.{TableLaws}

module _ (J : Json) (C : Chrono) {State : Type 0} {W : Wire J.Value} (D : Database J C State)
    (R : Redis J W State) (L : TableLaws J C D R) (p : Profile) (now : C.DateTime) where
  open L use {row_of, Entered}

  -- The event of the row is in the stream of its module.
  abbrev pub Logged : State → Model J C → Type 0
  Logged s row =
      (json : Text) × (R.to_string row.payload ≡ ok json)
      × Entered s (stream_name row.event_type) row.event_type json

  -- A change of the state that leaves the row of an id and what was logged.
  abbrev pub Keeps : State → State → Type 0
  Keeps s t = (row : Model J C) → Logged s row → Logged t row

  -- The call of XADD in `publish`, behind the encoding of the payload.
  abbrev pub Enters : Model J C → State → Result Text AppError × State → Type 0
  Enters row s m =
      ((id : ℕ) → row_of m.1 id ≡ row_of s id)
      × Keeps s m.1
      × ((id : Text) → m.0 ≡ ok id → Logged m.1 row)

  internally-ok :
      (m : Result Text Text × State) {id : Text} → (internally m).0 ≡ ok id → m.0 ≡ ok id
  internally-ok (ok id, s) h = ground arith
  internally-ok (err text, s) h = absurd (cc)

  xadd-Enters :
      (row : Model J C) (json : Text) (s : State)
      → R.to_string row.payload ≡ ok json
      → Enters row s
          (internally (R.query_string (xadd (stream_name row.event_type) row.event_type json) s))
  xadd-Enters row json s h = (
    λ id. L.xadd-row (stream_name row.event_type) row.event_type json id s,
    λ other (text, same, logged). (
      text,
      same,
      L.xadd-keeps (stream_name row.event_type) row.event_type json (stream_name other.event_type)
          other.event_type text s logged,
    ),
    λ id answered. (
      json,
      h,
      L.xadd-enters (stream_name row.event_type) row.event_type json id s (
          internally-ok (R.query_string (xadd (stream_name row.event_type) row.event_type json) s)
            answered),
    ),
  )

  encoded-Enters :
      (row : Model J C) (s : State) (json : Result Text Text)
      → R.to_string row.payload ≡ json
      → Enters row s (
          continue
            (map_err internal json, s)
            (λ text t.
              internally
                (R.query_string (xadd (stream_name row.event_type) row.event_type text) t)))
  encoded-Enters row s (ok json) h = xadd-Enters row json s h
  encoded-Enters row s (err text) h = (λ id. refl, λ other logged. logged, λ id same. absurd (cc))

  pub publish-Enters :
      (row : Model J C) (s : State) → Enters row s (publish R row.event_type row.payload s)
  unfolding publish
  publish-Enters row s = encoded-Enters row s (R.to_string row.payload) refl
