-- ===== src/Bus/Message/RoundTrip.antt =====
-- Events that are published come back from the stream as they were.
use oa_libs.Bus.Message.{
  named_stream, parse_stream, parse_streams, parse_view, event_type_of, message_of, set_field,
  set_pair, named_entry, named_views, named_items, push, bulk_string, array, BusMessage,
  parse_entry, parse_entries, parse_stream_reply, Wire,
}
use oa_libs.Base.{◌≡◌, refl, ap₂, some, List, [], ◌∷◌, ◌++◌, map, All}
use oa_libs.Deps.{Json}
use oa_libs.Std.Text.{Text, codes, text_eq}
use oa_libs.Std.Utf8.{Bytes, as_bytes}
use oa_libs.Std.Utf8.Decode.{IsScalar}

-- What Redis replies are built of, and the documented behaviour of the two decoders on bytes that were
-- encoded.
pub record WireLaws (J : Json) (W : Wire J.Value) : Type 0 where
  pub array_of : List W.Reply → W.Reply
  pub bulk_of : Bytes → W.Reply
  pub view-array_of : (items : List W.Reply) → W.view (array_of items) ≡ array items
  pub view-bulk_of : (b : Bytes) → W.view (bulk_of b) ≡ bulk_string b
  pub to_vec : J.Value → Bytes
  pub value_from_slice-to_vec : (v : J.Value) → W.value_from_slice (to_vec v) ≡ some v
  pub from_utf8_lossy-as_bytes : (s : Text) → All IsScalar s → W.from_utf8_lossy (as_bytes s) ≡ s

-- An entry of a stream, as `Bus::publish` writes it.
pub record Event (Value : Type 0) : Type 0 where
  pub id : Text
  pub event_type : Text
  pub payload : Value

module _ (J : Json) (W : Wire J.Value) (L : WireLaws J W) where
  open L use {array_of, bulk_of, to_vec}

  -- The reply of XREADGROUP for entries with the fields `eventType` and `payload`.
  unfoldable pub entry_reply : Event J.Value → W.Reply
  entry_reply e = array_of (
      bulk_of (as_bytes e.id)
      ∷ array_of (
          bulk_of (as_bytes (codes "eventType"))
          ∷ bulk_of (as_bytes e.event_type)
          ∷ bulk_of (as_bytes (codes "payload"))
          ∷ bulk_of (to_vec e.payload)
          ∷ [])
      ∷ [])

  unfoldable pub stream_reply : Text × List (Event J.Value) → W.Reply
  stream_reply (name, events) =
      array_of (bulk_of (as_bytes name) ∷ array_of (map entry_reply events) ∷ [])

  -- The message that an event of a stream becomes.
  unfoldable pub delivered : Text → Event J.Value → BusMessage J.Value
  delivered name e = record {
    id = e.id;
    stream = name;
    event_type = e.event_type;
    payload = e.payload;
  }

  unfoldable pub all_delivered : List (Text × List (Event J.Value)) → List (BusMessage J.Value)
  all_delivered [] = []
  all_delivered ((name, events) ∷ streams) = map (delivered name) events ++ all_delivered streams

  abbrev pub IsEvent : Event J.Value → Type 0
  IsEvent e = All IsScalar e.id × All IsScalar e.event_type

  abbrev pub IsStream : Text × List (Event J.Value) → Type 0
  IsStream s = All IsScalar s.0 × All IsEvent s.1

  parse_entry_reply :
      (name : Text) (e : Event J.Value)
      → IsEvent e
      → parse_entry J W name (entry_reply e) ≡ some (delivered name e)
  unfolding parse_entry entry_reply delivered named_views named_entry set_pair set_field message_of
      event_type_of text_eq as_bytes
  parse_entry_reply name e h =
      rw
        (
          L.view-array_of,
          L.view-bulk_of,
          L.view-array_of,
          L.view-bulk_of (as_bytes (codes "eventType")),
          L.view-bulk_of (as_bytes e.event_type),
          L.view-bulk_of (as_bytes (codes "payload")),
          L.view-bulk_of (to_vec e.payload),
          L.value_from_slice-to_vec,
          L.from_utf8_lossy-as_bytes e.id h.0,
          L.from_utf8_lossy-as_bytes e.event_type h.1,
        )
        refl

  parse_entry_replies :
      (name : Text) (events : List (Event J.Value))
      → All IsEvent events
      → parse_entries J W name (map entry_reply events) ≡ map (delivered name) events
  unfolding parse_entries push
  parse_entry_replies name [] h = refl
  parse_entry_replies name (e ∷ events) h =
      rw (parse_entry_reply name e h.0, parse_entry_replies name events h.1)

  parse_stream-stream_reply :
      (s : Text × List (Event J.Value))
      → IsStream s
      → parse_stream J W (stream_reply s) ≡ map (delivered s.0) s.1
  unfolding parse_stream stream_reply named_stream named_items named_views
  parse_stream-stream_reply (name, events) h =
      rw (L.view-array_of, L.view-bulk_of, L.view-array_of, L.from_utf8_lossy-as_bytes name h.0)
        (parse_entry_replies name events h.1)

  parse_streams-stream_reply :
      (streams : List (Text × List (Event J.Value)))
      → All IsStream streams
      → parse_streams J W (map stream_reply streams) ≡ all_delivered streams
  unfolding parse_streams all_delivered
  parse_streams-stream_reply [] h = refl
  parse_streams-stream_reply (s ∷ streams) h =
      ap₂ (λ a b. a ++ b) (parse_stream-stream_reply s h.0) (parse_streams-stream_reply streams h.1)

  -- Whatever events the streams hold, reading them back yields each one once, in the order of the
  -- streams and of the entries, with its id, its stream, its type and its payload.
  pub parse-stream_reply :
      (streams : List (Text × List (Event J.Value)))
      → All IsStream streams
      → parse_stream_reply J W (array_of (map stream_reply streams)) ≡ all_delivered streams
  unfolding parse_stream_reply parse_view
  parse-stream_reply streams h = rw (L.view-array_of) (parse_streams-stream_reply streams h)
