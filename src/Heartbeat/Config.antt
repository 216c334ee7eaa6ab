-- ===== src/Heartbeat/Config.antt =====
-- crates/heartbeat/src/config.rs: the worker's configuration, its defaults, and its projections.
use rust_basics.Prelude.{ℕ, Option, none, String, List, Result}
use rust_basics.Envy.{Envy}
use rust_basics.Httpx.Config as Http

pub record Config : Type 0 where
  pub addr : String
  pub shutdown_timeout_secs : ℕ
  pub log_level : String
  pub log_format : String
  pub interval_ms : ℕ
  pub upstream_url : Option String

-- The values of the `serde` defaults.
unfoldable pub default : Config
default = record {
  addr = "0.0.0.0:8081";
  shutdown_timeout_secs = 10;
  log_level = "info";
  log_format = "json";
  interval_ms = 5000;
  upstream_url = none;
}

unfoldable pub httpx : Config → Http.Config
httpx c = record {
  addr = c.addr;
  shutdown_timeout_secs = c.shutdown_timeout_secs;
  log_level = c.log_level;
  log_format = c.log_format;
}

-- The tick interval in milliseconds.
unfoldable pub interval : Config → ℕ
interval c = c.interval_ms

-- `Config::from_env`
unfoldable pub from_env : Envy Config → List (String × String) → Result String Config
from_env envy env = Envy.prefixed envy "HEARTBEAT_" env
