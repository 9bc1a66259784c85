-- ===== src/Bus/Message/UnitTests.antt =====
-- The unit tests of crates/bus/src/message.rs, on the model.
use oa_libs.Base.{map, ◌≡◌, refl, true, Option, none, some, List, [], ◌∷◌, is_empty, if◌then◌else◌}
use oa_libs.Deps.Samples.{Tree, trees, tree_serde}
use oa_libs.Std.Text.{codes, text_eq}
use oa_libs.Std.Utf8.{Bytes}
use oa_libs.Std.Utf8.Decode.{decode_utf8}
use oa_libs.Bus.Message.{Wire, BusMessage, stream_name, parse_stream_reply}
use oa_libs.Bus.Samples.{Reply, bulk, items, nil_reply, from_list, view_reply}

-- The payloads of the tests, and their bytes.
abbrev assigned : Tree
assigned = tree_serde.from_members (
    (codes "id", tree_serde.from_str (codes "e1"))
    ∷ (codes "type", tree_serde.from_str (codes "task.assigned"))
    ∷ (codes "title", tree_serde.from_str (codes "t"))
    ∷ [])

abbrev assigned_bytes : Bytes
assigned_bytes = codes "{'id':'e1','type':'task.assigned','title':'t'}"

abbrev created : Tree
created =
    tree_serde.from_members ((codes "type", tree_serde.from_str (codes "im.message.created")) ∷ [])

abbrev created_bytes : Bytes
created_bytes = codes "{'type':'im.message.created'}"

-- serde_json on these bytes.
abbrev parsed : Bytes → Option Tree
parsed b =
    if text_eq b assigned_bytes
    then some assigned
    else if text_eq b created_bytes
    then some created
    else none

abbrev test_wire : Wire Tree
test_wire = record {
  Reply = Reply;
  view = view_reply;
  value_from_slice = parsed;
  from_utf8_lossy = decode_utf8;
}

abbrev array_of : List Reply → Reply
array_of replies = items (from_list replies)

-- The reply for one stream with one entry of these fields.
abbrev one_entry : Bytes → Bytes → List Reply → Reply
one_entry stream id fields =
    array_of
      (array_of (bulk stream ∷ array_of (array_of (bulk id ∷ array_of fields ∷ []) ∷ []) ∷ []) ∷ [])

abbrev messages : Reply → List (BusMessage Tree)
messages reply = parse_stream_reply trees test_wire reply

abbrev task_reply : Reply
task_reply = one_entry (codes "events.task") (codes "1-0") (
    bulk (codes "eventType")
    ∷ bulk (codes "task.assigned")
    ∷ bulk (codes "payload")
    ∷ bulk assigned_bytes
    ∷ [])

abbrev chat_reply : Reply
chat_reply =
    one_entry (codes "events.im") (codes "2-0") (bulk (codes "payload") ∷ bulk created_bytes ∷ [])

abbrev no_payload : Reply
no_payload = one_entry (codes "events.x") (codes "1-0") (bulk (codes "eventType") ∷ [])

-- stream_name_uses_module_prefix.
StreamNameUsesModulePrefix : Type 0
StreamNameUsesModulePrefix =
    (stream_name (codes "task.assigned") ≡ codes "events.task")
    × (stream_name (codes "single") ≡ codes "events.single")
    × (stream_name (codes "") ≡ codes "events.system")

StreamNameUsesModulePrefix_holds : StreamNameUsesModulePrefix
unfolding StreamNameUsesModulePrefix stream_name
StreamNameUsesModulePrefix_holds = (refl, refl, refl)

-- parse_message_from_redis_value.
ParseMessageFromRedisValue : Type 0
ParseMessageFromRedisValue =
    messages task_reply
    ≡ record {
      id = codes "1-0";
      stream = codes "events.task";
      event_type = codes "task.assigned";
      payload = assigned;
    }
      ∷ []

ParseMessageFromRedisValue_holds : ParseMessageFromRedisValue
unfolding ParseMessageFromRedisValue parse_stream_reply view_reply from_list text_eq
    oa_libs.Std.Utf8.as_bytes decode_utf8
ParseMessageFromRedisValue_holds = refl

-- parse_tolerates_empty_and_broken_replies; a reply of another kind stands for `Nil` and for `Int`.
ParseToleratesEmptyAndBrokenReplies : Type 0
ParseToleratesEmptyAndBrokenReplies =
    (is_empty (messages nil_reply) ≡ true)
    × (is_empty (messages (array_of [])) ≡ true)
    × (is_empty (messages (array_of (nil_reply ∷ []))) ≡ true)
    × (is_empty (messages no_payload) ≡ true)

ParseToleratesEmptyAndBrokenReplies_holds : ParseToleratesEmptyAndBrokenReplies
unfolding ParseToleratesEmptyAndBrokenReplies parse_stream_reply view_reply from_list
ParseToleratesEmptyAndBrokenReplies_holds = (refl, refl, refl, refl)

-- event_type_falls_back_to_payload_type.
EventTypeFallsBackToPayloadType : Type 0
EventTypeFallsBackToPayloadType =
    map (λ m. m.event_type) (messages chat_reply) ≡ codes "im.message.created" ∷ []

EventTypeFallsBackToPayloadType_holds : EventTypeFallsBackToPayloadType
unfolding EventTypeFallsBackToPayloadType parse_stream_reply view_reply from_list text_eq
    oa_libs.Std.Utf8.as_bytes oa_libs.Deps.Samples.tree_get oa_libs.Deps.Samples.of_members
    oa_libs.Deps.Samples.tree_str
EventTypeFallsBackToPayloadType_holds = refl
