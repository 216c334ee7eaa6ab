-- ===== src/Resilient/Metrics/Tests.antt =====
-- The metrics' theorems at concrete runs.
use rust_basics.Prelude.{◌+◌, ◌≡◌, refl, List, [], ◌∷◌, String, str_ne, if◌then◌else◌, arith}
use rust_basics.Prometheus.{same_labels}
use rust_basics.Prometheus.Sample.{numbers, numbers-IsPrometheus, none_counted}
use rust_basics.Resilient.Samples.{codes, client, request, attempt, target, limits, closed_cells}
use rust_basics.Resilient.Breaker.{allow_request, record_success}
use rust_basics.Resilient.Request.{execute}
use rust_basics.Resilient.Client.{
  PolicySet, send, admit, classify, complete, policy_for, set_policy,
}
use rust_basics.Resilient.Metrics.{Metrics, play_all}
use rust_basics.Resilient.Metrics.Sends.{send-requests_total, send-state_gauge}

abbrev metrics : Metrics numbers
metrics = record {
  requests_total = "outbound_requests_total";
  request_duration = "outbound_request_duration_seconds";
  state_gauge = "outbound_circuit_breaker_state";
  retry_attempts = "outbound_retry_attempts_total";
  registry = tt;
}

send-requests_total_example :
    let after =
      play_all numbers metrics 0 (send codes (client 5) request (attempt 1)).0.log none_counted in
    (status error_type : String) × ((ls : List String)
      → after.totals "outbound_requests_total" ls
        ≡ 0 + (if same_labels ("svc" ∷ "GET" ∷ status ∷ error_type ∷ []) ls then 1 else 0))
unfolding play_all send admit complete policy_for allow_request record_success set_policy classify
    execute
send-requests_total_example =
    send-requests_total codes numbers numbers-IsPrometheus metrics 0 (client 5) request (attempt 1)
      none_counted refl (str_ne "outbound_retry_attempts_total" "outbound_requests_total" refl)
      (λ ls. omega arith)

abbrev used : PolicySet codes
used = record {
  rate_limiter = 4;
  cells = record closed_cells { window_requests = 1 };
  limits = limits;
  config = target;
}

send-state_gauge_example :
    let after =
      play_all numbers metrics 0 (send codes (client 5) request (attempt 1)).0.log none_counted in
    after.levels "outbound_circuit_breaker_state" ("svc" ∷ []) ≡ 0
unfolding send admit complete policy_for allow_request record_success set_policy classify execute
send-state_gauge_example =
    send-state_gauge codes numbers numbers-IsPrometheus metrics 0 (client 5) request (attempt 1)
      used none_counted refl (λ e. cc) refl
