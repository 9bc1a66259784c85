-- ===== src/Bus/Outbox/Columns.antt =====
-- crates/bus/src/outbox.rs: the columns of the table `outbox`, and the orders that a query can ask for.
-- The columns of the table.
pub data Column : Type 0 where
  id event_type payload status attempts available_at last_error created_at sent_at : Column

-- The order of a query: none, `order_by_asc` or `order_by_desc`.
pub data OrderBy : Type 0 where
  unordered : OrderBy
  asc desc : Column → OrderBy
