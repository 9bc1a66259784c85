-- ===== src/Bus/Client/Connecting.antt =====
-- Bus::connect of crates/bus/src/client.rs.
use oa_libs.Base.{ℕ, Option, none, some, Result, Action, continue, map_err}
use oa_libs.Std.Text.{Text}
use oa_libs.Common.Error.{AppError, internal}
use oa_libs.Bus.Client.{internally}

-- The settings of `ConnectionManagerConfig` that the source makes; a time is in seconds.
pub record ManagerConfig : Type 0 where
  pub response_timeout : Option ℕ
  pub connection_timeout : Option ℕ

-- What `connect` uses of redis: `Client::open`, which only reads the URL, and
-- `ConnectionManager::new_with_config`. An error is its text.
pub record Connector (State : Type 0) : Type 1 where
  pub RedisClient : Type 0
  pub ConnectionManager : Type 0
  pub open_client : Text → Result RedisClient Text
  pub new_with_config : RedisClient → ManagerConfig → Action State ConnectionManager Text

-- The configuration of `connect`.
abbrev pub manager_config : ManagerConfig
manager_config = record { response_timeout = none; connection_timeout = some 5 }

module _ {State : Type 0} (K : Connector State) where
  open K use {ConnectionManager, open_client, new_with_config}

  -- Bus::connect.
  pub connect : Text → Action State ConnectionManager AppError
  connect redis_url s =
      continue (map_err internal (open_client redis_url), s)
        (λ client t. internally (new_with_config client manager_config t))
