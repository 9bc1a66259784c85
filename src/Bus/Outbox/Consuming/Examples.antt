-- ===== src/Bus/Outbox/Consuming/Examples.antt =====
-- A consumer that reads what a round of the outbox has published.
use oa_libs.Base.{◌≡◌, ◌≢◌, ◌⊎◌, refl, subst, List, [], ◌∷◌, ◌++◌, map, All, ok, arith}
use oa_libs.Std.Int.{pos, debug}
use oa_libs.Std.Text.{Text, codes}
use oa_libs.Std.Utf8.Decode.{IsScalar}
use oa_libs.Deps.Samples.{seconds}
use oa_libs.Bus.Samples.{strings, wire, wire_laws}
use oa_libs.Bus.Message.RoundTrip.{Event, delivered}
use oa_libs.Bus.Client.{read_group, xreadgroup}
use oa_libs.Bus.Outbox.{drain_once, fetch_due}
use oa_libs.Bus.Outbox.Log.{Logging, Ascending}
use oa_libs.Bus.Outbox.Consuming.{FromRows, logged_reply, logged_replies, log_reply, round_is_read}
use oa_libs.Bus.Outbox.Samples.{Row, World, table}
use oa_libs.Bus.Outbox.Samples.Ordered.{logged}
use oa_libs.Bus.Outbox.Samples.Reader.{
  numbered, user_events, reader, same_bytes, reader_laws, reader_log,
}
use oa_libs.Bus.Outbox.Examples.{first}

abbrev read_world : World
read_world = (drain_once strings seconds table reader debug 10 (pos 100) first).1

-- The entry of the round stands in the stream that is read.
one_there :
    (e : Logging) × (logged_replies wire_laws user_events (numbered (logged read_world.entries))
      ≡ logged_reply wire_laws (codes "1-0") e ∷ [])
unfolding drain_once fetch_due oa_libs.Std.Text.text_eq oa_libs.Bus.Client.publish
    oa_libs.Std.Utf8.as_bytes oa_libs.Bus.Outbox.settle_sent oa_libs.Bus.Outbox.mark_sent
    oa_libs.Bus.Outbox.increment logged_replies oa_libs.Bus.Message.stream_name
one_there = (
  record { stream = codes "events.user"; event_type = codes "user.created"; payload = codes "{}" },
  refl,
)

abbrev group : Text
group = codes "mail"

abbrev consumer : Text
consumer = codes "m1"

-- What the reader answers for the entries that have come.
abbrev Served : List Logging → Type 0
Served es =
    (entries : List (Text × Logging)) × (map (λ e. e.1) entries ≡ es)
    × All (λ e. All IsScalar e.0 × All IsScalar e.1.event_type) entries
    × (logged_replies wire_laws user_events entries ≢ []
        → reader.query_value (xreadgroup (user_events ∷ []) group consumer 10 5000) read_world
          ≡ (ok (log_reply wire_laws user_events entries), read_world))

served : Served (logged read_world.entries)
unfolding drain_once fetch_due oa_libs.Std.Text.text_eq oa_libs.Bus.Client.publish
    oa_libs.Std.Utf8.as_bytes oa_libs.Bus.Outbox.settle_sent oa_libs.Bus.Outbox.mark_sent
    oa_libs.Bus.Outbox.increment
served = (
  numbered (logged read_world.entries),
  refl,
  ((omega arith, omega arith), tt),
  λ some_left. refl,
)

serves : (es : List Logging) → logged read_world.entries ≡ logged first.entries ++ es → Served es
serves es h = subst Served h served

round_is_read_example :
    (logged read_world.entries ≡ logged first.entries)
    ⊎ ((rows : List Row) × (es : List Logging) × (events : List (Event Text)) × ((fetch_due strings
            seconds table 10
            (pos 100)
            first).0
          ≡ ok rows)
        × Ascending (map (λ r. r.id) rows)
        × (logged read_world.entries ≡ logged first.entries ++ es)
        × FromRows strings seconds table reader reader_laws reader_log wire_laws user_events es
            events rows
        × (events ≢ []
            → read_group reader (user_events ∷ []) group consumer 10 5000 read_world
              ≡ (ok (map (delivered strings wire wire_laws user_events) events), read_world)))
round_is_read_example =
    round_is_read strings seconds table reader reader_laws reader_log wire_laws same_bytes debug 10
      (pos 100) user_events group consumer 10 5000 first read_world (omega arith) serves
