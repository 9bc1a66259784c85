-- ===== src/Bus/Outbox/Ledger.antt =====
-- The ledger of the outbox: a row is marked as sent only after its event has entered a stream, and no
-- event of a row is lost, whatever fails on the way.
use mathlib.Core.Option.{some-injective}
use oa_libs.Base.{
  ℕ, ◌==◌, ==_iff, Bool-cases, ◌≡◌, ◌≢◌, ◌⊎◌, inl, inr, refl, sym, ap, subst, ◌∙◌, some, ok, arith,
}
use oa_libs.Deps.{Json, Chrono}
use oa_libs.Std.Text.{Text}
use oa_libs.Bus.Message.{Wire, stream_name}
use oa_libs.Bus.Client.{Redis}
use oa_libs.Bus.Outbox.{Model, Patch, Database, sent_status}
use oa_libs.Bus.Outbox.Table.{TableLaws, patched}

module _ (J : Json) (C : Chrono) {State : Type 0} {W : Wire J.Value} (D : Database J C State)
    (R : Redis J W State) (L : TableLaws J C D R) where
  open L use {row_of, Entered}

  -- The event of the row is in the stream of its module.
  abbrev pub InStream : State → Model J C → Type 0
  InStream s r =
      (json : Text) × (R.to_string r.payload ≡ ok json)
      × Entered s (stream_name r.event_type) r.event_type json

  -- Every row that is marked as sent has its event in a stream.
  abbrev pub Delivered : State → Type 0
  Delivered s =
      (id : ℕ) (r : Model J C) → row_of s id ≡ some r → r.status ≡ sent_status → InStream s r

  -- Every row of the one state is in the other, with the same event.
  abbrev pub Kept : State → State → Type 0
  Kept s t =
      (id : ℕ) (r : Model J C)
      → row_of s id ≡ some r
      → (r' : Model J C) × (row_of t id ≡ some r')
        × (r'.event_type ≡ r.event_type)
        × (r'.payload ≡ r.payload)

  abbrev pub StreamsKept : State → State → Type 0
  StreamsKept s t = (r : Model J C) → InStream s r → InStream t r

  -- What is kept on the way from a state: the ledger is right, no row is lost, and no entry either.
  abbrev pub Safe : State → State → Type 0
  Safe o s = Delivered s × Kept o s × StreamsKept o s

  -- A change that leaves the table and the entries of the streams.
  pub unchanged-Safe :
      (o s t : State)
      → ((id : ℕ) → row_of t id ≡ row_of s id)
      → StreamsKept s t
      → Safe o s
      → Safe o t
  unchanged-Safe o s t rows streams (delivered, kept, entries) = (
    λ id r at sent. streams r (delivered id r (sym (rows id) ∙ at) sent),
    λ id r at. let (r', at', kind, body) = kept id r at in (r', rows id ∙ at', kind, body),
    λ r was. streams r (entries r was),
  )

  update_streams : (id : ℕ) (patch : Patch J C) (s : State) → StreamsKept s (D.update id patch s).1
  update_streams id patch s r (json, shown, entered) =
      (json, shown, L.update-keeps id patch (stream_name r.event_type) r.event_type json s entered)

  -- What an update has done to a row.
  abbrev Updated : ℕ → Patch J C → State → ℕ → Type 0
  Updated id patch s other =
      (row_of (D.update id patch s).1 other ≡ row_of s other)
      ⊎ ((r : Model J C) × (id ≡ other)
          × (row_of s other ≡ some r)
          × (row_of (D.update id patch s).1 other ≡ some (patched J C patch r)))

  update_row : (id : ℕ) (patch : Patch J C) (s : State) (other : ℕ) → Updated id patch s other
  update_row id patch s other = elim (Bool-cases (id == other)) [
    | inl same ↦
        let e = (==_iff id other).0 same in
        subst (λ n. Updated id patch s n) e
          (elim (L.update-atomic id patch s) [
            | inl left ↦ inl left
            | inr (r, was, now_is) ↦ inr (r, refl, was, now_is)
          ])
    | inr differ ↦
        let apart : id ≢ other = ground (arith, differ) in
        inl (L.update-apart id other patch s apart)
  ]

  still_kept :
      (id : ℕ) (patch : Patch J C) (s : State) (other : ℕ) (r' r : Model J C)
      → row_of s other ≡ some r'
      → r'.event_type ≡ r.event_type
      → r'.payload ≡ r.payload
      → (r'' : Model J C) × (row_of (D.update id patch s).1 other ≡ some r'')
        × (r''.event_type ≡ r.event_type)
        × (r''.payload ≡ r.payload)
  still_kept id patch s other r' r at kind body = elim (update_row id patch s other) [
    | inl same ↦ (r', same ∙ at, kind, body)
    | inr (m, here, was, now_is) ↦
        let e = some-injective m r' (sym was ∙ at) in
        (patched J C patch m, now_is, ap (λ n. n.event_type) e ∙ kind, ap (λ n. n.payload) e ∙ body)
  ]

  -- An update that marks a row as sent only where its event is in the stream.
  pub update-Safe :
      (o s : State) (id : ℕ) (patch : Patch J C)
      → ((r : Model J C)
          → row_of s id ≡ some r
          → (patched J C patch r).status ≡ sent_status
          → InStream s r)
      → Safe o s
      → Safe o (D.update id patch s).1
  update-Safe o s id patch proper (delivered, kept, entries) =
      let t = (D.update id patch s).1 in
      (
        λ other r at sent. elim (update_row id patch s other) [
          | inl same ↦ update_streams id patch s r (delivered other r (sym same ∙ at) sent)
          | inr (r', here, was, now_is) ↦
              let e = some-injective (patched J C patch r') r (sym now_is ∙ at) in
              subst (InStream t) e (
                update_streams id patch s r'
                  (proper r' (ap (row_of s) here ∙ was) (ap (λ m. m.status) e ∙ sent)))
        ],
        λ other r at.
            let (r', at', kind, body) = kept other r at in
            still_kept id patch s other r' r at' kind body,
        λ r was. update_streams id patch s r (entries r was),
      )
