-- ===== src/Valkey/Config.antt =====
-- crates/valkey/src/config.rs: the configuration of the cache, and its defaults.
use rust_basics.Prelude.{ℕ, String, List, Result}
use rust_basics.Envy.{Envy}

pub record Config : Type 0 where
  pub valkey_url : String
  pub valkey_probe_secs : ℕ

unfoldable pub default : Config
default = record { valkey_url = "redis://127.0.0.1:6379"; valkey_probe_secs = 5 }

-- `Config::from_env`
unfoldable pub from_env : Envy Config → String → List (String × String) → Result String Config
from_env envy prefix env = Envy.prefixed envy prefix env
