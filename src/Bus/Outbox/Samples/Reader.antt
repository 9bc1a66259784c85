-- ===== src/Bus/Outbox/Samples/Reader.antt =====
-- The server that also answers a read, with the entries of the stream of user events.
use oa_libs.Base.{◌≡◌, sym, ap, ◌∙◌, Bool-cases, inl, inr, List, map, ok, err, if◌then◌else◌, arith}
use oa_libs.Std.Text.{Text, codes, text_eq}
use oa_libs.Std.Text.Laws.{text_eq_iff}
use oa_libs.Std.Utf8.{as_bytes}
use oa_libs.Deps.Samples.{seconds}
use oa_libs.Bus.Samples.{strings, wire, wire_laws}
use oa_libs.Bus.Client.{Redis}
use oa_libs.Bus.Outbox.Table.{TableLaws}
use oa_libs.Bus.Outbox.Log.{LogLaws, Logging}
use oa_libs.Bus.Outbox.Consuming.{log_reply}
use oa_libs.Bus.Outbox.Samples.{World, table, server}
use oa_libs.Bus.Outbox.Samples.Laws.{laws}
use oa_libs.Bus.Outbox.Samples.Ordered.{logged, log_laws}

abbrev pub numbered : List Logging → List (Text × Logging)
numbered es = map (λ e. (codes "1-0", e)) es

abbrev pub user_events : Text
user_events = codes "events.user"

-- Only a payload of ASCII is written.
abbrev pub reader : Redis strings wire World
reader = record {
  query_string = server.query_string;
  query_unit = server.query_unit;
  query_int = server.query_int;
  ping = server.ping;
  query_value = λ args s. (ok (log_reply wire_laws user_events (numbered (logged s.entries))), s);
  to_string = λ v. if text_eq (as_bytes v) v then ok v else err (codes "not ASCII");
}

pub same_bytes : (v json : Text) → reader.to_string v ≡ ok json → v ≡ as_bytes json
same_bytes v json h = elim (Bool-cases (text_eq (as_bytes v) v)) [
  | inl plain ↦
      let written : v ≡ json = ground arith in
      sym ((text_eq_iff (as_bytes v) v).0 plain) ∙ ap as_bytes written
  | inr other ↦ absurd (ground arith)
]

abbrev pub reader_laws : TableLaws strings seconds table reader
reader_laws = record {
  row_of = laws.row_of;
  Entered = laws.Entered;
  select-held = laws.select-held;
  select-status = laws.select-status;
  select-due = laws.select-due;
  select-apart = laws.select-apart;
  select-limited = laws.select-limited;
  select-complete = laws.select-complete;
  select-keeps = laws.select-keeps;
  select-streams = laws.select-streams;
  update-patches = laws.update-patches;
  update-apart = laws.update-apart;
  update-keeps = laws.update-keeps;
  update-atomic = laws.update-atomic;
  insert-holds = laws.insert-holds;
  insert-atomic = laws.insert-atomic;
  insert-apart = laws.insert-apart;
  insert-streams = laws.insert-streams;
  xadd-enters = laws.xadd-enters;
  xadd-keeps = laws.xadd-keeps;
  xadd-row = laws.xadd-row;
}

abbrev pub reader_log : LogLaws strings seconds table reader
reader_log = record {
  log = log_laws.log;
  select-ordered = log_laws.select-ordered;
  select-log = log_laws.select-log;
  update-log = log_laws.update-log;
  xadd-log = log_laws.xadd-log;
}
