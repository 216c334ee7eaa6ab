-- ===== src/Consumer/Config.antt =====
-- crates/consumer/src/config.rs: the worker's configuration, its defaults, and the configurations of
-- the libraries that it is projected into. The sampling ratio is of the float type `F`.
use rust_basics.Prelude.{ℕ, Bool, false, String, List, Result}
use rust_basics.Envy.{Envy}
use rust_basics.Httpx.Config as Http
use rust_basics.Kafka.Config as Kafka
use rust_basics.Otelx as Otel

pub record Config (F : Type 0) : Type 0 where
  pub addr : String
  pub shutdown_timeout_secs : ℕ
  pub log_level : String
  pub log_format : String
  pub kafka_brokers : String
  pub kafka_topic : String
  pub kafka_group : String
  pub kafka_probe_secs : ℕ
  pub otel_enabled : Bool
  pub otel_service_name : String
  pub otel_endpoint : String
  pub otel_sampler_ratio : F

-- The values of the `serde` defaults.
unfoldable pub default : {F : Type 0} → F → Config F
default one = record {
  addr = "0.0.0.0:8083";
  shutdown_timeout_secs = 10;
  log_level = "info";
  log_format = "json";
  kafka_brokers = "localhost:9092";
  kafka_topic = "tasks.events";
  kafka_group = "tasks-consumer";
  kafka_probe_secs = 5;
  otel_enabled = false;
  otel_service_name = "consumer";
  otel_endpoint = "http://localhost:4317";
  otel_sampler_ratio = one;
}

module _ {F : Type 0} (c : Config F) where
  unfoldable pub httpx : Http.Config
  httpx = record {
    addr = c.addr;
    shutdown_timeout_secs = c.shutdown_timeout_secs;
    log_level = c.log_level;
    log_format = c.log_format;
  }

  unfoldable pub kafka : Kafka.Config
  kafka = record {
    kafka_brokers = c.kafka_brokers;
    kafka_topic = c.kafka_topic;
    kafka_group = c.kafka_group;
    kafka_client_id = "consumer";
    kafka_probe_secs = c.kafka_probe_secs;
  }

  unfoldable pub otelx : Otel.Config F
  otelx = record {
    otel_enabled = c.otel_enabled;
    otel_service_name = c.otel_service_name;
    otel_endpoint = c.otel_endpoint;
    otel_sampler_ratio = c.otel_sampler_ratio;
  }

-- `Config::from_env`
unfoldable pub from_env :
    {F : Type 0} → Envy (Config F) → List (String × String) → Result String (Config F)
from_env envy env = Envy.prefixed envy "CONSUMER_" env
