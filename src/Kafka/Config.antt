-- ===== src/Kafka/Config.antt =====
-- crates/kafka/src/config.rs: the configuration of a producer or a consumer, and its defaults.
use rust_basics.Prelude.{ℕ, String, List, Result}
use rust_basics.Envy.{Envy}

pub record Config : Type 0 where
  pub kafka_brokers : String
  pub kafka_topic : String
  pub kafka_group : String
  pub kafka_client_id : String
  pub kafka_probe_secs : ℕ

unfoldable pub default : Config
default = record {
  kafka_brokers = "localhost:9092";
  kafka_topic = "tasks.events";
  kafka_group = "tasks-consumer";
  kafka_client_id = "rust-basics";
  kafka_probe_secs = 5;
}

-- `Config::from_env`
unfoldable pub from_env : Envy Config → String → List (String × String) → Result String Config
from_env envy prefix env = Envy.prefixed envy prefix env
