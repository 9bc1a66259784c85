-- ===== src/Bus/Outbox/Samples/Ordered.antt =====
-- The server with its entries in the order in which they came, and the laws of the log.
use oa_libs.Base.{inr, refl, List, [], ◌∷◌, ◌++◌}
use oa_libs.Deps.Samples.{seconds}
use oa_libs.Bus.Samples.{strings}
use oa_libs.Bus.Outbox.Log.{LogLaws, Logging, InOrder}
use oa_libs.Bus.Outbox.Columns.{OrderBy, unordered, asc, desc}
use oa_libs.Bus.Outbox.Samples.{Row, Entry, table, server}
use oa_libs.Bus.Outbox.Samples.Laws.{selected_cases}

abbrev pub logged : List Entry → List Logging
logged [] = []
logged (e ∷ es) =
    logged es ++ record { stream = e.stream; event_type = e.event_type; payload = e.payload } ∷ []

abbrev pub none_in_order : (order : OrderBy) → InOrder strings seconds table server order []
none_in_order unordered = tt
none_in_order (asc c) = tt
none_in_order (desc c) = tt

abbrev pub one_in_order :
    (order : OrderBy) (r : Row) → InOrder strings seconds table server order (r ∷ [])
one_in_order unordered r = tt
one_in_order (asc c) r = (tt, tt)
one_in_order (desc c) r = (tt, tt)

abbrev pub log_laws : LogLaws strings seconds table server
log_laws = record {
  log = λ s. logged s.entries;
  select-ordered = λ q rows s h.
      selected_cases (λ l. InOrder strings seconds table server q.order_by l) q s.row h
        (none_in_order q.order_by) (λ r at passes. one_in_order q.order_by r);
  select-log = λ q s. refl;
  update-log = λ id patch s. refl;
  xadd-log = λ stream event_type payload s. inr refl;
}
