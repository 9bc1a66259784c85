-- ===== src/Bus/Client/Examples.antt =====
-- The commands of the bus with a server that has the group, and with one that keeps an event.
use oa_libs.Base.{sym, ap, ◌+◌, ℕ, ◌≡◌, refl, List, [], ◌∷◌, ok, err, arith}
use oa_libs.Bus.Client.Publishing.{read_group-publish, published, stream_of, group_reply}
use oa_libs.Bus.Message.{stream_name}
use oa_libs.Bus.Client.{xadd, xreadgroup, publish, Redis, xgroup_create, ensure_group, read_group}
use oa_libs.Std.Utf8.{as_bytes}
use oa_libs.Std.Int.{pos}
use oa_libs.Std.Text.{Text, codes}
use oa_libs.Bus.Message.RoundTrip.{delivered}
use oa_libs.Bus.Samples.{nil_reply, strings, wire, wire_laws}
use oa_libs.Bus.Client.Groups.{Ensured, ensure_group_exact}

abbrev server : Redis strings wire ℕ
server = record {
  query_string = λ args s. (ok (codes "1-0"), s);
  query_unit = λ args s. (err (codes "BUSYGROUP Consumer Group name already exists"), s + 1);
  query_int = λ args s. (ok (pos 1), s);
  ping = λ s. (ok (codes "PONG"), s);
  query_value = λ args s. (ok nil_reply, s);
  to_string = λ v. ok v;
}

ensure_group_exact_example :
    Ensured server
      (server.query_unit (xgroup_create (codes "events.user") (codes "mail")) 0).0
      (ensure_group server (codes "events.user") (codes "mail") 0).0
    × ((ensure_group server (codes "events.user") (codes "mail") 0).1
        ≡ (server.query_unit (xgroup_create (codes "events.user") (codes "mail")) 0).1)
ensure_group_exact_example = ensure_group_exact server (codes "events.user") (codes "mail") 0

-- A server that keeps the arguments of the last XADD, and answers a read with its entry.
abbrev keeper : Redis strings wire (List Text)
keeper = record {
  query_string = λ args s. (ok (codes "2-0"), args);
  query_unit = λ args s. (ok tt, s);
  query_int = λ args s. (ok (pos 1), s);
  ping = λ s. (ok (codes "PONG"), s);
  query_value = λ args s. (ok (group_reply wire_laws [] (codes "2-0") s), s);
  to_string = λ v. ok v;
}

abbrev user_left : List Text
user_left = xadd (stream_name (codes "user.left")) (codes "user.left") (codes "{}")

serves :
    (args : List Text)
    → keeper.query_string args [] ≡ (ok (codes "2-0"), user_left)
    → keeper.query_value
        (xreadgroup (stream_of args ∷ []) (codes "mail") (codes "m1") 10 5000)
        user_left
      ≡ (ok (group_reply wire_laws [] (codes "2-0") args), user_left)
serves args h =
    ap (λ r. (ok (group_reply wire_laws [] (codes "2-0") r), user_left)) (sym (ap (λ r. r.1) h))

publishes : publish keeper (codes "user.left") (codes "{}") [] ≡ (ok (codes "2-0"), user_left)
unfolding publish
publishes = refl

read_group-publish_example :
    read_group keeper
      (stream_name (codes "user.left") ∷ [])
      (codes "mail")
      (codes "m1")
      10
      5000
      user_left
    ≡ (
      ok (
          delivered strings wire wire_laws
            (stream_name (codes "user.left"))
            (published wire_laws (codes "2-0") (codes "user.left") (codes "{}"))
          ∷ []),
      user_left,
    )
unfolding as_bytes stream_name
read_group-publish_example =
    read_group-publish keeper wire_laws (codes "user.left") (codes "2-0") (codes "{}")
      (codes "mail") (codes "m1") (codes "{}") [] 10 5000 [] user_left user_left refl refl
      (omega arith) serves publishes
