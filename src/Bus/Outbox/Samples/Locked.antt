-- ===== src/Bus/Outbox/Samples/Locked.antt =====
-- The table with at most one row where no update comes through, with the laws of the outbox.
use oa_libs.Base.{ok, ◌≡◌, inl, refl, err}
use oa_libs.Std.Text.{codes}
use oa_libs.Deps.Samples.{seconds}
use oa_libs.Bus.Samples.{strings}
use oa_libs.Bus.Outbox.{Database}
use oa_libs.Bus.Outbox.Table.{TableLaws}
use oa_libs.Bus.Outbox.Samples.{World, table, server}
use oa_libs.Bus.Outbox.Samples.Laws.{laws}

abbrev pub locked : Database strings seconds World
locked = record {
  insert = table.insert;
  select = table.select;
  update = λ id patch s. (err (codes "locked"), s);
}

pub never_done : {X : Type 0} → err (codes "locked") ≡ ok (tt {0}) → X
never_done h = absurd (cc)

abbrev pub locked_laws : TableLaws strings seconds locked server
locked_laws = record {
  row_of = laws.row_of;
  Entered = laws.Entered;
  select-held = laws.select-held;
  select-status = laws.select-status;
  select-due = laws.select-due;
  select-apart = laws.select-apart;
  select-limited = laws.select-limited;
  select-complete = laws.select-complete;
  select-keeps = laws.select-keeps;
  select-streams = laws.select-streams;
  update-patches = λ id patch row s h held. never_done h;
  update-apart = λ id other patch s n. refl;
  update-keeps = λ id patch stream event_type payload s h. h;
  update-atomic = λ id patch s. inl refl;
  insert-holds = laws.insert-holds;
  insert-atomic = laws.insert-atomic;
  insert-apart = laws.insert-apart;
  insert-streams = laws.insert-streams;
  xadd-enters = laws.xadd-enters;
  xadd-keeps = laws.xadd-keeps;
  xadd-row = laws.xadd-row;
}
