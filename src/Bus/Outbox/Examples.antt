-- ===== src/Bus/Outbox/Examples.antt =====
-- The outbox over a table with at most one row, and a server that takes every event.
use oa_libs.Bus.Outbox.Samples.Ordered.{logged, log_laws}
use oa_libs.Bus.Outbox.Log.{Ascending}
use oa_libs.Bus.Outbox.Order.{Grown, drain_once-Grown}
use oa_libs.Base.{
  map, err, ◌⊎◌, Any, sym, ap, ℕ, ◌≡◌, refl, false, none, some, List, [], ◌∷◌, All, ok, arith,
}
use oa_libs.Bus.Outbox.Samples.Locked.{locked, locked_laws}
use oa_libs.Bus.Outbox.Failures.{LeftOver, drain_once-LeftOver}
use oa_libs.Bus.Outbox.Interruption.{IsInternalStop}
use oa_libs.Bus.Outbox.{
  failed, enqueue, new_row, Model, Patch, Query, Database, backoff_seconds, pending, due, fetch_due,
  drain_once,
}
use oa_libs.Common.Error.{internal}
use oa_libs.Bus.Outbox.Ledger.{Delivered, Kept, StreamsKept}
use oa_libs.Bus.Outbox.History.{History, start, then_step, enqueued, drained, History-Delivered}
use oa_libs.Bus.Outbox.Delivery.{FirstTried, drain_once-enqueue}
use oa_libs.Bus.Outbox.Publishing.{Keeps}
use oa_libs.Bus.Outbox.Rows.{IsCounted}
use oa_libs.Std.Int.{negsuc, pos, debug, release}
use oa_libs.Bus.Outbox.Progress.{Updates, drain_once-returns}
use oa_libs.Deps.Samples.{seconds}
use oa_libs.Std.Text.{codes, text_eq}
use oa_libs.Bus.Client.{Redis, xadd}
use oa_libs.Bus.Samples.{strings}
use oa_libs.Bus.Outbox.Backoff.{documented, backoff_seconds_exact}
use oa_libs.Bus.Outbox.Draining.{Settled}
use oa_libs.Bus.Outbox.Round.{drain_once-Settled}
use oa_libs.Bus.Outbox.Samples.{Row, World, found, table, server}
use oa_libs.Bus.Outbox.Samples.Laws.{laws, found-some}

abbrev pub row : Row
row = record {
  id = 4;
  event_type = codes "user.created";
  payload = codes "{}";
  status = pending;
  attempts = pos 2;
  available_at = pos 90;
  last_error = none;
  created_at = pos 10;
  sent_at = none;
}

abbrev pub first : World
first = record { row = some row; entries = [] }

-- Every row of the table can be counted.
counted :
    (id : ℕ) (r : Row)
    → found id first.row ≡ some r
    → IsCounted strings seconds table server laws debug (pos 100) r
counted id r h =
    let (here, same) = found-some id row r h in (2, ap (λ m. m.attempts) (sym same), omega arith)

after : World
after = (drain_once strings seconds table server debug 10 (pos 100) first).1

round_run : drain_once strings seconds table server debug 10 (pos 100) first ≡ (ok 1, after)
unfolding after drain_once fetch_due text_eq oa_libs.Bus.Client.publish
    oa_libs.Bus.Outbox.settle_sent oa_libs.Bus.Outbox.mark_sent oa_libs.Bus.Outbox.increment
round_run = refl

drain_once-Settled_example :
    (rows : List Row) × ((fetch_due strings seconds table 10 (pos 100) first).0 ≡ ok rows)
    × All (λ r. r.status ≡ pending) rows
    × All (λ r. seconds.before (pos 100) r.available_at ≡ false) rows
    × Settled strings seconds table server laws debug (pos 100) after rows 1
    × ((id : ℕ) → Any (λ r. id ≡ r.id) rows ⊎ (found id after.row ≡ found id first.row))
    × Keeps strings seconds table server laws debug (pos 100) first after
drain_once-Settled_example =
    drain_once-Settled strings seconds table server laws debug (pos 100) 10 1 first after counted
      (omega arith) round_run

backoff_seconds_exact_example :
    (backoff_seconds release (pos 4) ≡ some (documented 4))
    × (backoff_seconds release (pos 0) ≡ some 5)
    × (backoff_seconds release (negsuc 3) ≡ some 5)
backoff_seconds_exact_example = backoff_seconds_exact release 3 (omega arith)

always_updates : Updates strings seconds table server laws debug (pos 100)
always_updates id patch s = (_, refl)

picks : table.select (due strings seconds 10 (pos 100)) first ≡ (ok (row ∷ []), first)
unfolding text_eq
picks = refl

drain_once-returns_example :
    (n : ℕ) × (u : World) × (drain_once strings seconds table server debug 10 (pos 100) first
      ≡ (ok n, u))
drain_once-returns_example =
    drain_once-returns strings seconds table server laws debug (pos 100) 10 first first (row ∷ [])
      always_updates picks ((2, refl, omega arith), tt) (omega arith)

abbrev empty : World
empty = record { row = none; entries = [] }

-- An event is enqueued and sent.
story :
    History strings seconds table server laws empty
      (drain_once strings seconds table server release 10
        (pos 100)
        (enqueue strings seconds table 4 (codes "user.created") (codes "{}") (pos 90) empty).1).1
story =
    then_step (then_step start (enqueued 4 (codes "user.created") (codes "{}") (pos 90)))
      (drained release 10 (pos 100))

none_sent : Delivered strings seconds table server laws empty
none_sent id r at marked = absurd (cc)

abbrev later_world : World
later_world =
    (drain_once strings seconds table server release 10 (pos 100)
      (enqueue strings seconds table 4 (codes "user.created") (codes "{}") (pos 90) empty).1).1

History-Delivered_example :
    Delivered strings seconds table server laws later_world
    × Kept strings seconds table server laws empty later_world
    × StreamsKept strings seconds table server laws empty later_world
History-Delivered_example = History-Delivered strings seconds table server laws story none_sent

-- The table behind the enqueueing.
abbrev waiting : World
waiting = (enqueue strings seconds table 4 (codes "user.created") (codes "{}") (pos 90) empty).1

abbrev new_event : Row
new_event = new_row strings seconds 4 (codes "user.created") (codes "{}") (pos 90)

waiting-IsCounted :
    (id : ℕ) (r : Row)
    → found id waiting.row ≡ some r
    → IsCounted strings seconds table server laws release (pos 100) r
unfolding enqueue new_row
waiting-IsCounted id r h =
    let (here, same) = found-some id new_event r h in
    (0, ap (λ m. m.attempts) (sym same), omega arith)

waiting_fetched : (fetch_due strings seconds table 10 (pos 100) waiting).0 ≡ ok (new_event ∷ [])
unfolding fetch_due enqueue text_eq new_row
waiting_fetched = refl

waiting_entered :
    (enqueue strings seconds table 4 (codes "user.created") (codes "{}") (pos 90) empty).0 ≡ ok 4
unfolding enqueue
waiting_entered = refl

waiting_run :
    drain_once strings seconds table server release 10 (pos 100) waiting ≡ (ok 1, later_world)
unfolding drain_once fetch_due text_eq oa_libs.Bus.Client.publish enqueue new_row
    oa_libs.Bus.Outbox.settle_sent oa_libs.Bus.Outbox.mark_sent oa_libs.Bus.Outbox.increment
waiting_run = refl

drain_once-enqueue_example :
    FirstTried strings seconds table server laws release (pos 100) later_world new_event
drain_once-enqueue_example =
    drain_once-enqueue strings seconds table server laws release (pos 100) 4 (codes "user.created")
      (codes "{}") (pos 90) 10 1 (new_event ∷ []) empty later_world waiting_entered refl
      waiting-IsCounted (omega arith) waiting_fetched (omega arith) waiting_run

-- Behind a round whose one update fails: the event is in the stream, and its row as it was.
abbrev half_done : World
half_done = (drain_once strings seconds locked server debug 10 (pos 100) first).1

locked-IsCounted :
    (id : ℕ) (r : Row)
    → found id first.row ≡ some r
    → IsCounted strings seconds locked server locked_laws debug (pos 100) r
locked-IsCounted id r h =
    let (here, same) = found-some id row r h in (2, ap (λ m. m.attempts) (sym same), omega arith)

locked_run :
    drain_once strings seconds locked server debug 10 (pos 100) first
    ≡ (err (failed (internal (codes "locked"))), half_done)
unfolding drain_once fetch_due text_eq oa_libs.Bus.Client.publish oa_libs.Bus.Outbox.settle_sent
    oa_libs.Bus.Outbox.mark_sent oa_libs.Bus.Outbox.increment
locked_run = refl

drain_once-LeftOver_example :
    IsInternalStop strings seconds locked server locked_laws debug
      (pos 100)
      (failed (internal (codes "locked")))
    × Keeps strings seconds locked server locked_laws debug (pos 100) first half_done
    × (((id : ℕ) → found id half_done.row ≡ found id first.row)
        ⊎ ((rows : List Row) × ((fetch_due strings seconds locked 10 (pos 100) first).0 ≡ ok rows)
            × LeftOver strings seconds locked server locked_laws debug (pos 100) half_done rows
            × ((id : ℕ)
                → Any (λ r. id ≡ r.id) rows ⊎ (found id half_done.row ≡ found id first.row))))
drain_once-LeftOver_example =
    drain_once-LeftOver strings seconds locked server locked_laws debug (pos 100) 10 first half_done
      (failed (internal (codes "locked"))) locked-IsCounted (omega arith) locked_run

drain_once-Grown_example :
    (logged after.entries ≡ logged first.entries)
    ⊎ ((rows : List Row) × ((fetch_due strings seconds table 10 (pos 100) first).0 ≡ ok rows)
        × Ascending (map (λ r. r.id) rows)
        × Grown strings seconds table server laws log_laws rows first after)
unfolding after drain_once
drain_once-Grown_example =
    drain_once-Grown strings seconds table server laws log_laws debug 10 (pos 100) first
