-- ===== src/Bus/Client/Publishing.antt =====
-- What `Bus::publish` writes and what `Bus::read_group` reads of it: the two ends of a stream.
use oa_libs.Base.{
  append-nil, ℕ, ◌≡◌, refl, sym, ap, ◌∙◌, List, [], ◌∷◌, ◌++◌, map, Result, ok, err, arith,
}
use oa_libs.Deps.{Json}
use oa_libs.Std.Text.{Text}
use oa_libs.Std.Utf8.{as_bytes}
use oa_libs.Bus.Message.{Wire, stream_name}
use oa_libs.Bus.Message.RoundTrip.{
  WireLaws, Event, IsStream, entry_reply, stream_reply, delivered, all_delivered,
}
use oa_libs.Bus.Client.{Redis, xadd, xreadgroup, internally, publish, read_group}
use oa_libs.Bus.Client.Groups.{read_group-all_delivered}

-- The stream that the arguments of XADD name.
abbrev pub stream_of : List Text → Text
stream_of (command ∷ stream ∷ rest) = stream
stream_of _ = []

-- The fields and values that the arguments of XADD list, behind the stream and the id.
abbrev pub fields_of : List Text → List Text
fields_of (command ∷ stream ∷ id ∷ fields) = fields
fields_of _ = []

module _ {J : Json} {W : Wire J.Value} (L : WireLaws J W) where
  -- The entry that XADD with these arguments appends, as XREADGROUP replies it.
  abbrev pub added_reply : Text → List Text → W.Reply
  added_reply id args = L.array_of (
      L.bulk_of (as_bytes id)
      ∷ L.array_of (map (λ s. L.bulk_of (as_bytes s)) (fields_of args))
      ∷ [])

  -- The reply of XREADGROUP on the stream for the earlier events and the one that was added.
  abbrev pub group_reply : List (Event J.Value) → Text → List Text → W.Reply
  group_reply earlier id args = L.array_of (
      L.array_of (
        L.bulk_of (as_bytes (stream_of args))
        ∷ L.array_of (map (entry_reply J W L) earlier ++ added_reply id args ∷ [])
        ∷ [])
      ∷ [])

  -- The event that is published.
  abbrev pub published : Text → Text → J.Value → Event J.Value
  published id event_type payload = record { id = id; event_type = event_type; payload = payload }

  added-entry :
      (id event_type json : Text) (payload : J.Value)
      → L.to_vec payload ≡ as_bytes json
      → added_reply id (xadd (stream_name event_type) event_type json)
        ≡ entry_reply J W L (published id event_type payload)
  unfolding entry_reply
  added-entry id event_type json payload same = rw (entry_reply, same) refl

  map_last :
      {A B : Type 0} (f : A → B) (xs : List A) (x : A) → map f xs ++ f x ∷ [] ≡ map f (xs ++ x ∷ [])
  map_last f [] x = refl
  map_last f (y ∷ xs) x = ap (λ l. f y ∷ l) (map_last f xs x)

  group_reply-stream :
      (earlier : List (Event J.Value)) (id event_type json : Text) (payload : J.Value)
      → L.to_vec payload ≡ as_bytes json
      → group_reply earlier id (xadd (stream_name event_type) event_type json)
        ≡ L.array_of (
            map
              (stream_reply J W L)
              ((stream_name event_type, earlier ++ published id event_type payload ∷ []) ∷ []))
  unfolding stream_reply
  group_reply-stream earlier id event_type json payload same =
      ap
        (λ entries. L.array_of (
          L.array_of (L.bulk_of (as_bytes (stream_name event_type)) ∷ L.array_of entries ∷ [])
          ∷ []))
        (ap (λ e. map (entry_reply J W L) earlier ++ e ∷ [])
            (added-entry id event_type json payload same)
          ∙ map_last (entry_reply J W L) earlier (published id event_type payload))

  one_stream :
      (name : Text) (earlier : List (Event J.Value)) (e : Event J.Value)
      → all_delivered J W L ((name, earlier ++ e ∷ []) ∷ [])
        ≡ map (delivered J W L name) earlier ++ delivered J W L name e ∷ []
  unfolding all_delivered
  one_stream name earlier e =
      append-nil (map (delivered J W L name) (earlier ++ e ∷ []))
      ∙ sym (map_last (delivered J W L name) earlier e)

module _ {State : Type 0} {J : Json} {W : Wire J.Value} (R : Redis J W State)
    (L : WireLaws J W) where
  answered-ok :
      (m : Result Text Text × State) {id : Text} {t : State}
      → internally m ≡ (ok id, t)
      → m ≡ (ok id, t)
  answered-ok (ok id, s) h = ground arith
  answered-ok (err text, s) h = absurd (cc)

  sent_command :
      (event_type id json : Text) (payload : J.Value) (s t : State)
      → R.to_string payload ≡ ok json
      → publish R event_type payload s ≡ (ok id, t)
      → R.query_string (xadd (stream_name event_type) event_type json) s ≡ (ok id, t)
  unfolding publish
  sent_command event_type id json payload s t encoded h =
      answered-ok (R.query_string (xadd (stream_name event_type) event_type json) s) (
        let shape : publish R event_type payload s
            ≡ internally (R.query_string (xadd (stream_name event_type) event_type json) s) =
          rw encoded refl in
        sym shape ∙ h)

  -- An event that was published is what a consumer of its module's stream reads last, with the id that
  -- `publish` returned, the stream, the type and the payload: if Redis answers the read that follows
  -- with the entries that were there and the one that the arguments of the XADD command describe, and
  -- the two encoders of serde_json write the same bytes for the payload.
  pub read_group-publish :
      (event_type id json group consumer : Text) (payload : J.Value)
      (earlier : List (Event J.Value)) (count block_ms : ℕ) (s t u : State)
      → R.to_string payload ≡ ok json
      → L.to_vec payload ≡ as_bytes json
      → IsStream J W L (stream_name event_type, earlier ++ published L id event_type payload ∷ [])
      → ((args : List Text)
          → R.query_string args s ≡ (ok id, t)
          → R.query_value (xreadgroup (stream_of args ∷ []) group consumer count block_ms) t
            ≡ (ok (group_reply L earlier id args), u))
      → publish R event_type payload s ≡ (ok id, t)
      → read_group R (stream_name event_type ∷ []) group consumer count block_ms t ≡ (
        ok (
            map (delivered J W L (stream_name event_type)) earlier
            ++ delivered J W L (stream_name event_type) (published L id event_type payload) ∷ []),
        u,
      )
  read_group-publish event_type id json group consumer payload earlier count block_ms s t u encoded
        same valid serves done =
      let stream = stream_name event_type in
      let streams : List (Text × List (Event J.Value)) =
        (stream, earlier ++ published L id event_type payload ∷ []) ∷ [] in
      let answered =
        serves (xadd stream event_type json)
          (sent_command event_type id json payload s t encoded done)
        ∙ ap (λ r. (ok r, u)) (group_reply-stream L earlier id event_type json payload same) in
      read_group-all_delivered R L streams group consumer count block_ms t u (λ e. cc) (valid, tt)
        answered
      ∙ ap (λ messages. (ok messages, u))
          (one_stream L stream earlier (published L id event_type payload))
