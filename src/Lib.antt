-- ===== src/Lib.antt =====
-- A model of the rust-basics workspace: a circuit-breaking HTTP client, the libraries around it
-- (secrets, HTTP server, cache, Kafka, rate limiter) and the services that are built from them.
--
-- The parts, and the files that model them:
-- - crates/resilient-client: `Resilient`. `ResilientHttpClient::send` asks the target's
--   `CircuitBreaker::allow_request` and its rate limiter (`Resilient.Client.admit`), waits for the
--   reply (`execute`), and `classify` reports it to the breaker and to the caller (`complete`);
--   `send_with_retry` repeats it with the delays of `full_jitter` (`Resilient/Backoff`). The five
--   atomics of circuit_breaker.rs are the record `Cells`: `Resilient/Breaker` has each operation run
--   alone, `Resilient/Breaker/Atomic` each access as a step of its own, so that threads interleave.
--   `Resilient/Breaker/Spec` is the circuit without its cells, which the operations refine.
--   `Resilient/Client/Concurrent` interleaves whole requests, `Resilient/Client/Trip` has them in a
--   row, `Resilient/Client/Futile` retries, `Resilient/Client/Feedback` one request with its breaker,
--   and `Resilient/Metrics` plays the client's log to the metrics of metrics.rs.
--   `Resilient/Shutdown` has the accesses of `shutdown`, `send` and `finish_in_flight` in the same
--   way. `Resilient/Config` and `Resilient/Request` hold config.rs, error.rs and the requests.
-- - crates/secrets: `Secrets`. `Compare` has `constant_time_eq`, `Seal` the keys with `seal` and
--   `open`, and `Cache` the `SecretCache`, whose `insert` is a load and a store.
-- - crates/httpx: `Httpx`. `Health` has the readiness gate and the checks, `Server` the `/readyz`
--   handler and the life of the server, `Problem` the RFC 9457 bodies, `Config` has `load_yaml`,
--   `Metrics` the registry and the middleware, `Router` the routes, and `Logging` `init_tracing`.
-- - crates/valkey: `Valkey`, the cache's methods over a server, `Valkey/Laws`, what they do to the
--   server's contents, `Valkey/Atomic`, what is known when they fail, `Valkey/Connect`, `connect`,
--   and `Valkey/Probe`, the health flag, which crates/kafka has in the same way.
-- - crates/kafka: `Kafka`, `publish` and the loop `Consumer::run`, `Kafka/Redelivery`, a group whose
--   consumer is stopped and started again, and `Kafka/Connect`, `connect` of the producer and of the
--   consumer.
-- - crates/tasks: `Tasks`. `Store` is the repository over the cache, `Store/Spec` the map of ids to
--   tasks that it refines, `Store/Faults` the map and the index that it refines while the server
--   fails, `Handlers` the HTTP handlers over the store, the problems of `Httpx` and the broker of
--   `Kafka`, `Api` the routes to them, and `Service` the boot of main.rs over the libraries above.
-- - crates/otelx: `Otelx`, with `init` and the guard in `Otelx/Init`.
-- - crates/consumer: `Consumer`, the worker on top of `Kafka.run`, and `Consumer/Service`, its boot.
-- - crates/heartbeat: `Heartbeat`, the ticker that polls through `Resilient`, and `Heartbeat/Service`.
-- - crates/ratelimit and crates/ping: `RateLimit` and `Ping`, the guarded routes; `Ping/Service` is
--   the boot of ping.
-- - the config.rs of the services and of the libraries: `Tasks/Config`,
--   `Consumer/Config`, `Heartbeat/Config`, `Kafka/Config`, `Valkey/Config`, `Otelx`.
-- - crates/tasks and crates/consumer together: `Pipeline`, the events from the one to the other, and
--   `Pipeline/Wire`, what serde derives for the two structs of the event.
-- `Prelude` holds what the parts share of Rust's standard library, `Monad` the chains of calls to the
-- outside that end at the first error, and the `Tests` and `Sample` modules run the theorems on
-- concrete data.
--
-- State is passed explicitly, the clock and random numbers are arguments, and logging is left out.
-- Durations are in milliseconds. Unsigned integers of the machine wrap around where they can
-- overflow. Loops over what the network gives are recursion on the list of what it gave;
-- `send_with_retry` runs on fuel, one more than the retries that the policy allows, which is enough.
--
-- What is no code of the repository is a parameter: floats (`Resilient/Float`), `governor`,
-- `reqwest` (`Resilient/Platform`), `tokio::sync::Notify` (`Resilient/Shutdown`), the cipher and
-- base64 (`Secrets/Seal`), YAML, files and the environment (`Httpx/Config`), `envy` (`Envy`), the
-- Valkey server and `serde_json` (`Valkey`, `Pipeline/Wire`), the clients of Valkey and Kafka
-- (`Valkey/Connect`, `Kafka/Connect`, `Kafka`), the metrics library (`Prometheus`), the tracing
-- libraries (`Tracing`) and the routing of axum (`Httpx/Router` for GET requests, `Tasks/Api`). Atomic accesses are taken as sequentially
-- consistent. Not modelled: sockets and signals, the building of reqwest's client, the expiry of
-- keys, and crates/*/tests.
pub mod Otelx
mod Prelude
pub mod Resilient
pub mod Secrets
pub mod Httpx
pub mod Valkey
pub mod Consumer
pub mod Kafka
pub mod Prometheus
pub mod Envy
pub mod Monad
pub mod Pipeline
pub mod Tracing
pub mod RateLimit
pub mod Ping
pub mod Heartbeat
pub mod Tasks
