-- ===== src/Otelx/Tests.antt =====
-- The theorems about the set-up of tracing at concrete runs.
use rust_basics.Prelude.{ℕ, Result, ◌≡◌, refl, ◌↔◌, ◌⊎◌, true, false, none, some, String, ok, err}
use rust_basics.Tracing.{first_of}
use rust_basics.Tracing.Sample.{process, process-IsTracing, fresh}
use rust_basics.Otelx.{Config}
use rust_basics.Otelx.Init.{
  TracingGuard, init, subscriber_of, replaced, init-subscriber, init-again,
}

abbrev config : String → Config ℕ
config endpoint = record {
  otel_enabled = true;
  otel_service_name = "tasks";
  otel_endpoint = endpoint;
  otel_sampler_ratio = 1;
}

abbrev guard_of : String → TracingGuard process
guard_of endpoint = record { provider = some endpoint }

init-subscriber_example :
    let (after, result) = init process (config "a") "debug" "TEXT" fresh in
    (after.propagating ≡ true)
    × (((e : String) × (result ≡ err e)
          × (true ≡ true)
          × (◌≡◌ {A = Result String String} (ok "a") (err e))
          × (after.installed ≡ none)
          × (after.provided ≡ none))
        ⊎ ((guard : TracingGuard process) × (result ≡ ok guard)
            × (after.installed
                ≡ some (first_of none (subscriber_of process "debug" "TEXT" guard.provider fresh)))
            × ((guard.provider ≡ none) ↔ (true ≡ false))
            × (after.provided ≡ replaced process guard.provider none)))
init-subscriber_example =
    init-subscriber process process-IsTracing (config "a") "debug" "TEXT" fresh

init-again_example :
    let first = (init process (config "a") "debug" "text" fresh).0 in
    let second = (init process (config "b") "info" "json" first).0 in
    (second.installed ≡ first.installed)
    × (second.provided ≡ replaced process (some "b") first.provided)
unfolding init
init-again_example =
    init-again process process-IsTracing (config "a") (config "b") "debug" "text" "info" "json"
      fresh (guard_of "a") (guard_of "b") refl refl
