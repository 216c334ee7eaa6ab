-- ===== src/Heartbeat/Tests.antt =====
-- The heartbeat at a concrete run: two beats, each with a poll.
use rust_basics.Prelude.{◌+◌, ◌≡◌, some, [], ◌∷◌, length}
use rust_basics.Resilient.Samples.{codes, half, client, attempt}
use rust_basics.Heartbeat.{Worker, Tick, run}
use rust_basics.Heartbeat.Beats.{Polled, run-Polled}

abbrev tick : Tick codes
tick = record { now = 0; tries = attempt }

abbrev worker : Worker codes
worker = record {
  interval = 5000;
  beats = 0;
  upstream = some (record { client = client 5; url = "http://up"; checks_ok = 0; checks_err = 0 });
}

run-Polled_example :
    ((run codes half (tick ∷ tick ∷ tick ∷ []) worker).beats ≡ 0 + length (tick ∷ tick ∷ []))
    × Polled codes half 2 worker.upstream (run codes half (tick ∷ tick ∷ tick ∷ []) worker).upstream
run-Polled_example = run-Polled codes half tick (tick ∷ tick ∷ []) worker
