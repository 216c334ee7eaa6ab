-- ===== src/Resilient/Metrics.antt =====
-- crates/resilient-client/src/metrics.rs: the client's metrics, and what its logged effects do to
-- them. Errors of the metrics library are texts.
pub mod Series
pub mod Sends
mod Tests
use rust_basics.Prelude.{List, [], ◌∷◌, String, ok}
use rust_basics.Monad.{M, ◌>>=◌, ◌>>◌}
use rust_basics.Prometheus.{Prometheus, counter, gauge, histogram}
use rust_basics.Resilient.Breaker.{CbState, to_u8}
use rust_basics.Resilient.Request.{Effect, counted, timed, cb_state, retried, slept}

module _ (lib : Prometheus) where
  open lib use {
    S, Vector, Registry, F64, of_u8, new_vector, new_registry, register, inc, set, observe,
  }

  pub record Metrics : Type 0 where
    pub requests_total : Vector counter
    pub request_duration : Vector histogram
    pub state_gauge : Vector gauge  -- `cb_state`
    pub retry_attempts : Vector counter
    pub registry : Registry

  -- `Metrics::new`
  unfoldable pub new : M S Metrics
  new s =
      let (s₁, registry) = new_registry s in
      (do
        requests_total ←
            new_vector counter
              (record {
                name = "outbound_requests_total";
                help = "Outbound HTTP requests, by target, method, status and error type.";
              })
              ("target" ∷ "method" ∷ "status" ∷ "error_type" ∷ [])
        request_duration ←
            new_vector histogram
              (record {
                name = "outbound_request_duration_seconds";
                help = "Outbound HTTP request latency in seconds, by target and method.";
              })
              ("target" ∷ "method" ∷ [])
        state_gauge ←
            new_vector gauge
              (record {
                name = "outbound_circuit_breaker_state";
                help = "Circuit-breaker state per target: 0=Closed, 1=Open, 2=HalfOpen.";
              })
              ("target" ∷ [])
        retry_attempts ←
            new_vector counter
              (record {
                name = "outbound_retry_attempts_total";
                help = "Retry attempts (excluding the initial try), by target.";
              })
              ("target" ∷ [])
        register registry requests_total
        register registry request_duration
        register registry state_gauge
        register registry retry_attempts
        λ t. (
          t,
          ok (record {
            requests_total = requests_total;
            request_duration = request_duration;
            state_gauge = state_gauge;
            retry_attempts = retry_attempts;
            registry = registry;
          }),
        ))
        s₁

  -- `set_cb_state`
  unfoldable pub set_cb_state : Metrics → String → CbState → S → S
  set_cb_state m target state = set m.state_gauge (target ∷ []) (of_u8 (to_u8 state))

  module _ (m : Metrics) (elapsed : F64) where
    -- What one logged effect does; every request took `elapsed` seconds here. To sleep does nothing.
    unfoldable pub play : Effect → S → S
    unfolding set_cb_state
    play (counted target method status error_type) s =
        inc m.requests_total (target ∷ method ∷ status ∷ error_type ∷ []) s
    play (timed target method) s = observe m.request_duration (target ∷ method ∷ []) elapsed s
    play (cb_state target state) s = set_cb_state m target state s
    play (retried target) s = inc m.retry_attempts (target ∷ []) s
    play (slept ms) s = s

    -- A whole log, whose newest effect comes first.
    unfoldable pub play_all : List Effect → S → S
    play_all [] s = s
    play_all (e ∷ older) s = play e (play_all older s)
