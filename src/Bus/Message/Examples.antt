-- ===== src/Bus/Message/Examples.antt =====
-- The round trip of events at concrete streams.
use oa_libs.Base.{refl, inr, ◌++◌, ◌≢◌, ◌≡◌, List, [], ◌∷◌, map, arith}
use oa_libs.Bus.Message.Naming.{stream_name-IsOf}
use oa_libs.Bus.Message.{stream_name, parse_stream_reply}
use oa_libs.Std.Text.{Text, codes}
use oa_libs.Bus.Message.RoundTrip.{Event, stream_reply, all_delivered, parse-stream_reply}
use oa_libs.Bus.Samples.{strings, wire, wire_laws}

abbrev streams : List (Text × List (Event Text))
streams =
    (
      codes "events.user",
      record { id = codes "1-0"; event_type = codes "user.created"; payload = codes "张" }
          ∷ record { id = codes "1-1"; event_type = codes "user.left"; payload = codes "{}" }
          ∷ [],
    )
    ∷ (codes "events.doc", [])
    ∷ []

parse-stream_reply_example :
    parse_stream_reply strings wire
      (wire_laws.array_of (map (stream_reply strings wire wire_laws) streams))
    ≡ all_delivered strings wire wire_laws streams
parse-stream_reply_example = parse-stream_reply strings wire wire_laws streams (omega arith)

stream_name-IsOf_example :
    ((codes "task" ≢ []) → stream_name (codes "task.assigned") ≡ codes "events." ++ codes "task")
    × (codes "task" ≡ [] → stream_name (codes "task.assigned") ≡ codes "events.system")
stream_name-IsOf_example =
    stream_name-IsOf (codes "task.assigned") (codes "task") (omega arith)
      (inr (codes "assigned", refl))
