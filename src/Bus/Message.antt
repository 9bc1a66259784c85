-- ===== src/Bus/Message.antt =====
-- crates/bus/src/message.rs: stream names, messages, and the reply of XREADGROUP.
pub mod RoundTrip
pub mod Naming
mod Examples
mod UnitTests
use oa_libs.Base.{
  ℕ, Bool, true, false, Option, none, some, List, [], ◌∷◌, ◌++◌, if◌then◌else◌, is_empty,
}
use oa_libs.Deps.{Json}
use oa_libs.Std.Text.{Text, codes, text_eq, split}
use oa_libs.Std.Utf8.{Bytes, as_bytes}

abbrev pub system_module : Text
system_module = codes "system"

-- `.next().filter(|module| !module.is_empty()).unwrap_or("system")` on the parts of the type.
module_of : List Text → Text
module_of [] = system_module
module_of (part ∷ parts) = if is_empty part then system_module else part

-- stream_name.
unfoldable pub stream_name : Text → Text
unfolding module_of split
stream_name event_type = codes "events." ++ module_of (split b'.' event_type)

-- struct BusMessage.
pub record BusMessage (Value : Type 0) : Type 0 where
  pub id : Text
  pub stream : Text
  pub event_type : Text
  pub payload : Value

-- A value of the redis crate as the source looks at it: an array, a bulk string, or another variant.
pub data View (Reply : Type 0) : Type 0 where
  array : List Reply → View Reply
  bulk_string : Bytes → View Reply
  other_reply : View Reply

-- What the crates use of redis values, of serde_json on bytes, and of `String::from_utf8_lossy`.
pub record Wire (Value : Type 0) : Type 1 where
  pub Reply : Type 0
  pub view : Reply → View Reply
  pub value_from_slice : Bytes → Option Value
  pub from_utf8_lossy : Bytes → Text

module _ (J : Json) (W : Wire J.Value) where
  open J use {Value}
  open W use {Reply, view, value_from_slice, from_utf8_lossy}

  -- The two variables of the loop over the fields of an entry.
  pub record Scan : Type 0 where
    pub event_type : Option Text
    pub payload : Option Value

  -- The `match field.as_slice()`.
  set_field : Bytes → Bytes → Scan → Scan
  set_field field raw v =
      if text_eq field (as_bytes (codes "eventType"))
      then record v { event_type = some (from_utf8_lossy raw) }
      else if text_eq field (as_bytes (codes "payload"))
      then record v { payload = value_from_slice raw }
      else v

  -- The `if let` on a field and its value.
  set_pair : View Reply → View Reply → Scan → Scan
  set_pair (bulk_string field) (bulk_string raw) v = set_field field raw v
  set_pair _ _ v = v

  -- The `while` loop: two fields a round, and a last odd one is not read.
  pub scan_fields : List Reply → Scan → Scan
  unfolding set_pair set_field
  scan_fields (field ∷ raw ∷ rest) v = scan_fields rest (set_pair (view field) (view raw) v)
  scan_fields _ v = v

  -- `(parts.first(), parts.get(1))` against a bulk string and an array.
  named_views : View Reply → View Reply → Option (Bytes × List Reply)
  named_views (bulk_string name) (array items) = some (name, items)
  named_views _ _ = none

  named_items : List Reply → Option (Bytes × List Reply)
  named_items (name ∷ items ∷ rest) = named_views (view name) (view items)
  named_items _ = none

  -- A reply that is an array of a name and of items; `none` is a `continue`.
  pub named : View Reply → Option (Bytes × List Reply)
  unfolding named_items named_views
  named (array parts) = named_items parts
  named _ = none

  -- `.or_else(…).unwrap_or_default()`.
  event_type_of : Option Text → Value → Text
  event_type_of (some event_type) payload = event_type
  event_type_of none payload = elim (J.get payload (codes "type")) as (λ _. Text) [
    | none ↦ []
    | some v ↦ elim (J.as_str v) as (λ _. Text) [ none ↦ [] | some s ↦ s ]
  ]

  -- The `if let Some(payload)` behind the loop over the fields.
  message_of : Text → Bytes → Scan → Option (BusMessage Value)
  message_of stream id v = elim v.payload as (λ _. Option (BusMessage Value)) [
    | none ↦ none
    | some payload ↦ some (record {
      id = from_utf8_lossy id;
      stream = stream;
      event_type = event_type_of v.event_type payload;
      payload = payload;
    })
  ]

  abbrev pub empty_scan : Scan
  empty_scan = record { event_type = none; payload = none }

  named_entry : Text → Option (Bytes × List Reply) → Option (BusMessage Value)
  named_entry stream none = none
  named_entry stream (some (id, fields)) = message_of stream id (scan_fields fields empty_scan)

  -- One round of the loop over the entries of a stream.
  pub parse_entry : Text → Reply → Option (BusMessage Value)
  unfolding named named_entry message_of scan_fields event_type_of
  parse_entry stream entry = named_entry stream (named (view entry))

  push : Option (BusMessage Value) → List (BusMessage Value) → List (BusMessage Value)
  push none messages = messages
  push (some m) messages = m ∷ messages

  pub parse_entries : Text → List Reply → List (BusMessage Value)
  unfolding parse_entry push
  parse_entries stream [] = []
  parse_entries stream (entry ∷ entries) =
      push (parse_entry stream entry) (parse_entries stream entries)

  named_stream : Option (Bytes × List Reply) → List (BusMessage Value)
  named_stream none = []
  named_stream (some (name, entries)) = parse_entries (from_utf8_lossy name) entries

  -- One round of the loop over the streams.
  pub parse_stream : Reply → List (BusMessage Value)
  unfolding named named_stream parse_entries
  parse_stream stream = named_stream (named (view stream))

  pub parse_streams : List Reply → List (BusMessage Value)
  unfolding parse_stream
  parse_streams [] = []
  parse_streams (stream ∷ streams) = parse_stream stream ++ parse_streams streams

  parse_view : View Reply → List (BusMessage Value)
  unfolding parse_streams
  parse_view (array streams) = parse_streams streams
  parse_view _ = []

  -- parse_stream_reply.
  pub parse_stream_reply : Reply → List (BusMessage Value)
  unfolding parse_view
  parse_stream_reply value = parse_view (view value)
