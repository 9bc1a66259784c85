-- ===== src/Bus/Client.antt =====
-- crates/bus/src/client.rs: the commands that the bus sends to Redis.
pub mod Groups
mod Publishing
pub mod Connecting
mod Examples
use oa_libs.Base.{
  ℕ, Bool, true, List, [], ◌∷◌, ◌++◌, map, is_empty, if◌then◌else◌, some, none, Result, ok, err,
  Action, continue, map_err,
}
use oa_libs.Std.Int.{ℤ}
use oa_libs.Deps.{Json}
use oa_libs.Std.Text.{Text, codes, contains}
use oa_libs.Std.Decimal.{show_ℕ}
use oa_libs.Common.Error.{AppError, internal}
use oa_libs.Bus.Message.{BusMessage, Wire, stream_name, parse_stream_reply}

-- What the crate uses of redis and of serde_json on values: the commands, as lists of arguments, by
-- the type of the answer that the source asks for. An error is its text.
pub record Redis (J : Json) (W : Wire J.Value) (State : Type 0) : Type 0 where
  pub query_string : List Text → Action State Text Text
  pub query_unit : List Text → Action State (Unit {0}) Text
  pub query_int : List Text → Action State ℤ Text
  pub ping : Action State Text Text
  pub query_value : List Text → Action State W.Reply Text
  pub to_string : J.Value → Result Text Text

-- `.map_err(AppError::internal)` on a command.
abbrev pub internally : {S A : Type 0} → Result A Text × S → Result A AppError × S
internally (r, s) = (map_err internal r, s)

-- The arguments of XADD.
abbrev pub xadd : Text → Text → Text → List Text
xadd stream event_type payload =
    codes "XADD"
    ∷ stream
    ∷ codes "*"
    ∷ codes "eventType"
    ∷ event_type
    ∷ codes "payload"
    ∷ payload
    ∷ []

-- The arguments of XREADGROUP.
abbrev pub xreadgroup : List Text → Text → Text → ℕ → ℕ → List Text
xreadgroup streams group consumer count block_ms =
    (codes "XREADGROUP"
      ∷ codes "GROUP"
      ∷ group
      ∷ consumer
      ∷ codes "COUNT"
      ∷ show_ℕ count
      ∷ codes "BLOCK"
      ∷ show_ℕ block_ms
      ∷ codes "STREAMS"
      ∷ [])
    ++ streams
    ++ map (λ _. codes ">") streams

-- The arguments of XGROUP.
abbrev pub xgroup_create : Text → Text → List Text
xgroup_create stream group =
    codes "XGROUP" ∷ codes "CREATE" ∷ stream ∷ group ∷ codes "$" ∷ codes "MKSTREAM" ∷ []

-- The `match` of `ensure_group`.
pub group_answer : {S : Type 0} → Result (Unit {0}) Text × S → Result (Unit {0}) AppError × S
group_answer (ok _, s) = (ok tt, s)
group_answer (err e, s) =
    if contains (codes "BUSYGROUP") e then (ok tt, s) else (err (internal e), s)

module _ {State : Type 0} {J : Json} {W : Wire J.Value} (R : Redis J W State) where
  -- Bus::publish.
  unfoldable pub publish : Text → J.Value → Action State Text AppError
  publish event_type payload s =
      continue (map_err internal (R.to_string payload), s)
        (λ json t. internally (R.query_string (xadd (stream_name event_type) event_type json) t))

  -- Bus::ensure_group.
  unfoldable pub ensure_group : Text → Text → Action State (Unit {0}) AppError
  unfolding group_answer
  ensure_group stream group s = group_answer (R.query_unit (xgroup_create stream group) s)

  -- Bus::read_group.
  unfoldable pub read_group :
      List Text → Text → Text → ℕ → ℕ → Action State (List (BusMessage J.Value)) AppError
  read_group streams group consumer count block_ms s =
      if is_empty streams
      then (ok [], s)
      else continue
          (internally (R.query_value (xreadgroup streams group consumer count block_ms) s))
          (λ value t. (ok (parse_stream_reply J W value), t))

  -- Bus::ack.
  unfoldable pub ack : Text → Text → List Text → Action State (Unit {0}) AppError
  ack stream group ids s =
      if is_empty ids
      then (ok tt, s)
      else continue (internally (R.query_int (codes "XACK" ∷ stream ∷ group ∷ ids) s))
          (λ _ t. (ok tt, t))

  -- Bus::ping.
  unfoldable pub ping : Action State (Unit {0}) AppError
  ping s = continue (internally (R.ping s)) (λ _ t. (ok tt, t))
