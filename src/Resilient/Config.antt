-- ===== src/Resilient/Config.antt =====
-- crates/resilient-client/src/config.rs: the client's configuration and its defaults. Reading it
-- from YAML is `serde`'s.
use rust_basics.Prelude.{ℕ, Option, none, some, List, [], String}
use rust_basics.Resilient.Float.{Float}

module _ (fl : Float) where
  open fl use {F64, fraction}

  pub record OutboundTargetConfig : Type 0 where
    pub name : String
    pub selector : String
    pub rate_limit : ℕ
    pub timeout_ms : Option ℕ
    pub cb_threshold : F64
    pub cb_min_requests : ℕ
    pub cb_window_secs : ℕ
    pub cb_half_open_timeout_secs : ℕ
    pub retry_max_attempts : ℕ
    pub retry_base_ms : ℕ
    pub retry_cap_ms : ℕ

  pub record ClientConfig : Type 0 where
    pub pool_max_idle_per_host : ℕ
    pub pool_idle_timeout_secs : ℕ
    pub tcp_keepalive_secs : ℕ
    pub default_timeout_ms : ℕ
    pub user_agent : Option String
    pub outbound_targets : List OutboundTargetConfig

  -- `OutboundTargetConfig::default`, with the values of `mod defaults`.
  unfoldable pub default_target : OutboundTargetConfig
  default_target = record {
    name = "";
    selector = "";
    rate_limit = 1000;
    timeout_ms = none;
    cb_threshold = fraction 5 10;
    cb_min_requests = 10;
    cb_window_secs = 10;
    cb_half_open_timeout_secs = 30;
    retry_max_attempts = 0;
    retry_base_ms = 100;
    retry_cap_ms = 30000;
  }

  -- `ClientConfig::default`
  unfoldable pub default_client : ClientConfig
  default_client = record {
    pool_max_idle_per_host = 100;
    pool_idle_timeout_secs = 90;
    tcp_keepalive_secs = 30;
    default_timeout_ms = 5000;
    user_agent = none;
    outbound_targets = [];
  }

  unfoldable pub fallback : String → OutboundTargetConfig
  unfolding default_target
  fallback name = record default_target { name = name }

  -- The timeout of a request in milliseconds, given the client's default.
  unfoldable pub timeout : OutboundTargetConfig → ℕ → ℕ
  timeout c default_ms = elim c.timeout_ms [ none ↦ default_ms | some ms ↦ ms ]
