-- ===== src/Bus/Outbox/Round.antt =====
-- What a whole round of `drain_once` leaves in the table and in the streams.
use oa_libs.Base.{
  false, Any, ◌⊎◌, inl, inr, Bool-cases, ◌==◌, ==_iff, map, All, ◌∙◌, sym, ap, subst, ◌≢◌, map_err,
  ℕ, ◌^◌, ◌<◌, ◌≡◌, some, List, [], ◌∷◌, ok, arith,
}
use oa_libs.Bus.Outbox.{pending, fetch_due, drain_once, drain_rows, Model, Database, due}
use oa_libs.Bus.Outbox.Publishing.{Keeps}
use oa_libs.Bus.Outbox.Rows.{passed, IsCounted}
use oa_libs.Deps.{Json, Chrono}
use oa_libs.Std.Int.{Profile}
use oa_libs.Common.Error.{internal}
use oa_libs.Bus.Message.{Wire, stream_name}
use oa_libs.Bus.Client.{Redis}
use oa_libs.Bus.Outbox.Table.{TableLaws}
use Prim.Native.Nat.{◌+◌}
use oa_libs.Bus.Outbox.Draining.{Settled, drained_rows}

module _ (J : Json) (C : Chrono) {State : Type 0} {W : Wire J.Value} (D : Database J C State)
    (R : Redis J W State) (L : TableLaws J C D R) (p : Profile) (now : C.DateTime) where
  open L use {row_of, Entered}

  pub All-IsCounted :
      (rows : List (Model J C)) (s : State)
      → ((id : ℕ) (r : Model J C) → row_of s id ≡ some r → IsCounted J C D R L p now r)
      → All (λ r. row_of s r.id ≡ some r) rows
      → All (IsCounted J C D R L p now) rows
  All-IsCounted [] s h held = tt
  All-IsCounted (r ∷ rows) s h held = (h r.id r held.0, All-IsCounted rows s h held.1)

  -- An id is that of one of the rows, or differs from all of them.
  pub among :
      (id : ℕ) (rows : List (Model J C))
      → Any (λ r. id ≡ r.id) rows ⊎ All (λ m. id ≢ m) (map (λ r. r.id) rows)
  among id [] = inr tt
  among id (r ∷ rows) = elim (Bool-cases (id == r.id)) [
    | inl same ↦ inl (inl ((==_iff id r.id).0 same))
    | inr differ ↦ elim (among id rows) [
      | inl later ↦ inl (inr later)
      | inr far ↦ inr (ground (arith, differ), far)
    ]
  ]

  zero_sum : (k : ℕ) {n : ℕ} → n ≡ 0 + k → k ≡ n
  zero_sum k h = omega arith

  -- A round that returns, on a table whose attempts can still be counted and with a limit below 2 ^ 32:
  -- every row it fetched was pending and due; each is marked as sent, and then its event is in the stream of its module, or it
  -- has one more attempt and waits for as long as documented; the result is the number of the former.
  -- No other row has changed, and no event has left a stream.
  pub drain_once-Settled :
      (limit n : ℕ) (s t : State)
      → ((id : ℕ) (r : Model J C) → row_of s id ≡ some r → IsCounted J C D R L p now r)
      → limit < 2 ^ 32
      → drain_once J C D R p limit now s ≡ (ok n, t)
      → (rows : List (Model J C)) × ((fetch_due J C D limit now s).0 ≡ ok rows)
        × All (λ r. (r.status ≡ pending)) rows
        × All (λ r. C.before now r.available_at ≡ false) rows
        × Settled J C D R L p now t rows n
        × ((id : ℕ) → Any (λ r. id ≡ r.id) rows ⊎ (row_of t id ≡ row_of s id))
        × Keeps J C D R L p now s t
  unfolding drain_once fetch_due
  drain_once-Settled limit n s t counted small h =
      let query = due J C limit now in
      let (rows, fetched, drained) =
        passed J C D R L p now (D.select query s) (λ rows u. drain_rows J C D R p rows now 0 u) h in
      let held = L.select-held query rows s fetched in
      let u = (D.select query s).1 in
      let counted' =
        All-IsCounted rows u (λ id r same. counted id r (sym (L.select-keeps query id s) ∙ same))
          held in
      let few = L.select-limited query rows s fetched in
      let ((k, count, settled), others, kept) =
        drained_rows J C D R L p now rows 0 n u t held (L.select-apart query rows s fetched)
          counted' (omega arith) drained in
      (
        rows,
        ap (map_err internal) fetched,
        L.select-status query rows s fetched,
        L.select-due query rows s fetched,
        subst (Settled J C D R L p now t rows) (zero_sum k count) settled,
        λ id. elim (among id rows) [
          | inl one ↦ inl one
          | inr far ↦ inr (others id far ∙ L.select-keeps query id s)
        ],
        λ other (json, shown, was). kept other (
          json,
          shown,
          L.select-streams query (stream_name other.event_type) other.event_type json s was,
        ),
      )
