-- ===== src/Heartbeat.antt =====
-- crates/heartbeat/src/worker.rs: the ticker that counts its beats and polls an upstream through the
-- resilient client. The counters are u64 of the metrics library, taken as below 2^64.
pub mod Config
pub mod Beats
pub mod Service
mod Tests
use rust_basics.Prelude.{ℕ, ◌+◌, Option, none, some, List, [], ◌∷◌, String, Result, ok, err}
use rust_basics.Resilient.Platform.{Platform}
use rust_basics.Resilient.Config.{OutboundTargetConfig, default_target}
use rust_basics.Resilient.Request.{get_request}
use rust_basics.Resilient.Client.{Client, Attempt, new}
use rust_basics.Resilient.Client.Retry.{send_with_retry}

module _ (p : Platform) where
  open p use {fl}

  -- The checks are counted by their result.
  pub record Upstream : Type 0 where
    pub client : Client p
    pub url : String
    pub checks_ok : ℕ
    pub checks_err : ℕ

  pub record Worker : Type 0 where
    pub interval : ℕ
    pub beats : ℕ
    pub upstream : Option Upstream

  -- The one target of the worker's client.
  unfoldable pub upstream_target : OutboundTargetConfig fl
  upstream_target = record (default_target fl) {
    name = "upstream";
    rate_limit = 1000;
    retry_max_attempts = 2;
    retry_base_ms = 50;
    retry_cap_ms = 500;
  }

  -- `Worker::new`, where the counters register and the client is built.
  unfoldable pub new_worker : ℕ → Option String → ℕ → Worker
  unfolding upstream_target
  new_worker interval none now = record { interval = interval; beats = 0; upstream = none }
  new_worker interval (some url) now = record {
    interval = interval;
    beats = 0;
    upstream = some (record {
      client = new p (upstream_target ∷ []) 1000 now;
      url = url;
      checks_ok = 0;
      checks_err = 0;
    });
  }

  -- What happens at one tick: when it is, and how each try of the poll fares.
  pub record Tick : Type 0 where
    pub now : ℕ
    pub tries : ℕ → Attempt p

  -- One poll; `none` would be a poll that does not return.
  unfoldable pub poll : (ℕ → ℕ) → Tick → Upstream → Option Upstream
  poll random tick up =
      elim (send_with_retry p random (get_request "upstream" up.url) tick.tries up.client
        tick.now) [
          | none ↦ none
          | some (client, ok resp) ↦
              some (record up { client = client; checks_ok = up.checks_ok + 1 })
          | some (client, err e) ↦
              some (record up { client = client; checks_err = up.checks_err + 1 })
        ]

  -- One turn of the loop.
  unfoldable pub beat : (ℕ → ℕ) → Tick → Worker → Worker
  beat random tick w = record w {
    beats = w.beats + 1;
    upstream = elim w.upstream [ none ↦ none | some up ↦ poll random tick up ];
  }

  unfoldable pub loop : (ℕ → ℕ) → List Tick → Worker → Worker
  loop random [] w = w
  loop random (tick ∷ ticks) w = loop random ticks (beat random tick w)

  -- `Worker::run` over the ticks so far: the first one is consumed without a beat.
  unfoldable pub run : (ℕ → ℕ) → List Tick → Worker → Worker
  run random [] w = w
  run random (first ∷ ticks) w = loop random ticks w
