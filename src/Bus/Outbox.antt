-- ===== src/Bus/Outbox.antt =====
-- crates/bus/src/outbox.rs: events are written to a table with the business data, and a task delivers
-- them to the bus, with retries.
pub mod Columns
pub mod Backoff
pub mod Table
pub mod Publishing
pub mod Rows
pub mod Draining
pub mod Round
pub mod Ledger
pub mod Steps
pub mod History
pub mod Progress
mod Delivery
pub mod Log
pub mod Order
pub mod Consuming
pub mod Interruption
mod Failures
mod Samples
mod Examples
mod UnitTests
use oa_libs.Base.{
  ℕ, ◌+◌, ◌*◌, ◌^◌, Bool, min, max, List, [], ◌∷◌, if◌then◌else◌, ltb, Option, some, none, Result,
  ok, err, Action, continue, map_err,
}
use oa_libs.Deps.{Json, Chrono}
use oa_libs.Std.Text.{Text, codes}
use oa_libs.Std.Int.{ℤ, pos, negsuc, ◌+ℤ◌, ◌-ℤ◌, Profile, debug, release, settle}
use oa_libs.Common.Error.{AppError, internal, to_string}
use oa_libs.Bus.Outbox.Columns.{Column, OrderBy}
use oa_libs.Bus.Message.{Wire}
use oa_libs.Bus.Client.{Redis, publish}

-- `.clamp(0, 7) as u32`.
clamp_exponent : ℤ → ℕ
clamp_exponent (pos n) = min n 7
clamp_exponent (negsuc n) = 0

-- The last line of `backoff_seconds`; with an exponent up to 7 the power fits.
abbrev pub capped : ℕ → ℕ
capped exponent = min (5 * 2 ^ exponent) 600

-- backoff_seconds; `none` is the panic of `attempts - 1`.
unfoldable pub backoff_seconds : Profile → ℤ → Option ℕ
unfolding clamp_exponent
backoff_seconds p attempts = elim (settle p 31 (attempts -ℤ pos 1)) as (λ _. Option ℕ) [
  | none ↦ none
  | some below ↦ some (capped (clamp_exponent below))
]

-- `sent += 1` on a `u32`.
unfoldable pub increment : Profile → ℕ → Option ℕ
increment p n =
    if ltb (n + 1) (2 ^ 32) then some (n + 1) else elim p [ debug ↦ none | release ↦ some 0 ]

abbrev pub pending : Text
pending = codes "pending"

abbrev pub sent_status : Text
sent_status = codes "sent"

-- Why a round stops: an error that `?` returns, or a panic.
pub data Stop : Type 0 where
  failed : AppError → Stop
  panicked : Stop

-- An operation that overflows panics.
abbrev pub or_panic : {S A : Type 0} → Option A → S → Result A Stop × S
or_panic (some a) s = (ok a, s)
or_panic none s = (err panicked, s)

-- `?` on an operation of the table.
abbrev pub or_failed : {S A : Type 0} → Result A AppError × S → Result A Stop × S
or_failed (r, s) = (map_err failed r, s)

module _ (J : Json) (C : Chrono) where
  open J use {Value}
  open C use {DateTime}

  -- struct Model of the table `outbox`; an id stands for the 128 bits of a `Uuid`.
  pub record Model : Type 0 where
    pub id : ℕ
    pub event_type : Text
    pub payload : Value
    pub status : Text
    pub attempts : ℤ
    pub available_at : DateTime
    pub last_error : Option Text
    pub created_at : DateTime
    pub sent_at : Option DateTime

  -- The columns that an update sets.
  pub record Patch : Type 0 where
    pub status : Option Text
    pub attempts : Option ℤ
    pub available_at : Option DateTime
    pub last_error : Option (Option Text)
    pub sent_at : Option (Option DateTime)

  -- A query: the filters on two columns, the order and the limit.
  pub record Query : Type 0 where
    pub status_eq : Text
    pub available_at_lte : DateTime
    pub order_by : OrderBy
    pub limit : ℕ

  -- What the crate uses of sea_orm. An error is its text.
  pub record Database (State : Type 0) : Type 0 where
    pub insert : Model → Action State (Unit {0}) Text
    pub select : Query → Action State (List Model) Text
    pub update : ℕ → Patch → Action State (Unit {0}) Text

  -- The `ActiveModel` of `enqueue`.
  unfoldable pub new_row : ℕ → Text → Value → DateTime → Model
  new_row id event_type payload now = record {
    id = id;
    event_type = event_type;
    payload = payload;
    status = pending;
    attempts = pos 0;
    available_at = now;
    last_error = none;
    created_at = now;
    sent_at = none;
  }

  -- The `ActiveModel` of `mark_sent`.
  unfoldable pub sent_patch : DateTime → Patch
  sent_patch now = record {
    status = some sent_status;
    attempts = none;
    available_at = none;
    last_error = some none;
    sent_at = some (some now);
  }

  -- The `ActiveModel` of `mark_retry`.
  unfoldable pub retry_patch : ℤ → DateTime → Text → Patch
  retry_patch attempts next_at error = record {
    status = none;
    attempts = some attempts;
    available_at = some next_at;
    last_error = some (some error);
    sent_at = none;
  }

  -- `.map_err(AppError::internal)` on an operation.
  abbrev pub as_internal : {S A : Type 0} → Result A Text × S → Result A AppError × S
  as_internal (r, s) = (map_err internal r, s)

  -- The query of `fetch_due` at a limit and a time.
  abbrev pub due : ℕ → DateTime → Query
  due limit now = record {
    status_eq = pending;
    available_at_lte = now;
    order_by = OrderBy.asc Column.id;
    limit = limit;
  }

  module _ {State : Type 0} (D : Database State) where
    -- enqueue, with the id that `Uuid::now_v7` gives.
    unfoldable pub enqueue : ℕ → Text → Value → DateTime → Action State ℕ AppError
    unfolding new_row
    enqueue id event_type payload now s =
        continue (as_internal (D.insert (new_row id event_type payload now) s)) (λ _ t. (ok id, t))

    -- fetch_due.
    unfoldable pub fetch_due : ℕ → DateTime → Action State (List Model) AppError
    fetch_due limit now s = as_internal (D.select (due limit now) s)

    -- mark_sent.
    unfoldable pub mark_sent : ℕ → DateTime → Action State (Unit {0}) AppError
    unfolding sent_patch
    mark_sent id now s = as_internal (D.update id (sent_patch now) s)

    -- mark_retry.
    unfoldable pub mark_retry : ℕ → ℤ → DateTime → Text → Action State (Unit {0}) AppError
    unfolding retry_patch
    mark_retry id attempts next_at error s =
        as_internal (D.update id (retry_patch attempts next_at error) s)

    module _ {W : Wire Value} (R : Redis J W State) (p : Profile) where
      -- The branch of `drain_once` for an event that was published.
      unfoldable pub settle_sent : Model → DateTime → ℕ → Action State ℕ Stop
      settle_sent row now sent s =
          continue (or_failed (mark_sent row.id now s)) (λ _ t. or_panic (increment p sent) t)

      -- The branch for an event that was not.
      unfoldable pub settle_retry : Model → DateTime → ℕ → AppError → Action State ℕ Stop
      settle_retry row now sent error s =
          continue (or_panic (settle p 31 (row.attempts +ℤ pos 1)) s) (λ attempts t.
            continue (or_panic (backoff_seconds p attempts) t) (λ seconds u.
              continue
                (or_failed
                  (mark_retry row.id attempts (C.add_seconds now seconds) (to_string error) u))
                (λ _ v. (ok sent, v))))

      settle_row : Model → DateTime → ℕ → Result Text AppError × State → Result ℕ Stop × State
      settle_row row now sent (ok _, s) = settle_sent row now sent s
      settle_row row now sent (err error, s) = settle_retry row now sent error s

      -- One round of the loop.
      unfoldable pub drain_row : Model → DateTime → ℕ → Action State ℕ Stop
      unfolding settle_row
      drain_row row now sent s = settle_row row now sent (publish R row.event_type row.payload s)

      -- The loop over the rows.
      unfoldable pub drain_rows : List Model → DateTime → ℕ → Action State ℕ Stop
      unfolding drain_row
      drain_rows [] now sent s = (ok sent, s)
      drain_rows (row ∷ rows) now sent s =
          continue (drain_row row now sent s) (λ sent' t. drain_rows rows now sent' t)

      -- drain_once.
      unfoldable pub drain_once : ℕ → DateTime → Action State ℕ Stop
      unfolding drain_rows
      drain_once limit now s =
          continue (or_failed (fetch_due limit now s)) (λ rows t. drain_rows rows now 0 t)
