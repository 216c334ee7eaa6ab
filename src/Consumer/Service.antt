-- ===== src/Consumer/Service.antt =====
-- crates/consumer/src/main.rs and `Worker::new`: how the worker's process comes up, what its
-- `/readyz` then answers, and how it ends. An `IntCounter` is a vector without labels here, a panic
-- is an error, and events of the log are left out.
pub mod Readiness
use rust_basics.Prelude.{◌≡◌, refl, ap, subst, Bool, false, [], String, Result, ok, ok-inj}
use rust_basics.Monad.{M, return, lift, ◌>>=◌, ◌>>◌, >>=-ok}
use rust_basics.Tracing.{Tracing}
use rust_basics.Prometheus.{Prometheus, counter}
use rust_basics.Otelx.Init as Otelx
use rust_basics.Valkey.Probe.{readiness, kafka_reason}
use rust_basics.Kafka.Connect as Kafka
use rust_basics.Kafka.Connect.{Rdkafka}
use rust_basics.Httpx.Health as Health
use rust_basics.Httpx.Health.{Health, register}
use rust_basics.Httpx.Server.{Server, created, ready}
use rust_basics.Httpx.Metrics as Metrics
use rust_basics.Consumer.Config.{Config, kafka, otelx}

-- The one check, which reads the flag of the consumer's probe.
pub data Check : Type 0 where
  kafka_check : Check

unfoldable pub answer : Bool → Check → Result String (Unit {0})
answer healthy kafka_check = readiness kafka_reason healthy

-- Which half of the `select!` ends first, and with what.
pub data Ended : Type 0 where
  server_ended worker_ended : Result String (Unit {0}) → Ended

-- The result of `main`: the other half is dropped.
unfoldable pub finish : Ended → Result String (Unit {0})
finish (server_ended result) = result
finish (worker_ended result) = result

module _ (tracing : Tracing) (rdkafka : Rdkafka) (lib : Prometheus) where
  open lib use {S, Vector, Registry, new_vector}

  pub record World : Type 0 where
    pub process : Tracing.G tracing
    pub broker_side : Rdkafka.W rdkafka
    pub store : S

  on_process : {A : Type 0} → M (Tracing.G tracing) A → M World A
  on_process m w = let (g, result) = m w.process in (record w { process = g }, result)

  on_broker : {A : Type 0} → M (Rdkafka.W rdkafka) A → M World A
  on_broker m w = let (g, result) = m w.broker_side in (record w { broker_side = g }, result)

  on_store : {A : Type 0} → M S A → M World A
  on_store m w = let (s, result) = m w.store in (record w { store = s }, result)

  pub record Worker : Type 0 where
    pub consumer : Kafka.Handle rdkafka
    pub consumed : Vector counter
    pub skipped : Vector counter

  -- The counters of `Worker::new`, registered.
  counters : Registry → M S (Vector counter × Vector counter)
  counters registry = do
    consumed ←
        new_vector counter
          (record {
            name = "consumer_tasks_consumed_total";
            help = "Total number of task.created events consumed successfully.";
          })
          []
    skipped ←
        new_vector counter
          (record {
            name = "consumer_tasks_skipped_total";
            help = "Total number of events skipped because they could not be decoded.";
          })
          []
    Prometheus.register lib registry consumed
    Prometheus.register lib registry skipped
    return (consumed, skipped)

  worker_of : Kafka.Handle rdkafka → Vector counter × Vector counter → Worker
  worker_of consumer both = record { consumer = consumer; consumed = both.0; skipped = both.1 }

  -- `Worker::new`
  unfoldable pub new_worker : Kafka.Handle rdkafka → Registry → M S Worker
  unfolding counters worker_of
  new_worker consumer registry = do both ← counters registry; return (worker_of consumer both)

  pub record Service : Type 0 where
    pub guard : Otelx.TracingGuard tracing
    pub worker : Worker
    pub server : Server Check

  -- `server.health` with its check.
  unfoldable pub health : Health Check
  unfolding register
  health = register Health.new "kafka" kafka_check

  service_of : Otelx.TracingGuard tracing → Worker → Service
  service_of guard worker = record {
    guard = guard;
    worker = worker;
    server = record { phase = created; health = health };
  }

  with_metrics :
      Otelx.TracingGuard tracing → Kafka.Handle rdkafka → Metrics.Metrics lib → M World Service
  unfolding on_store new_worker service_of
  with_metrics guard consumer metrics = do
    worker ← on_store (new_worker consumer metrics.registry)
    return (service_of guard worker)

  with_consumer : Otelx.TracingGuard tracing → Kafka.Handle rdkafka → M World Service
  unfolding on_store with_metrics
  with_consumer guard consumer = do
    metrics ← on_store (Metrics.new lib)
    with_metrics guard consumer metrics

  with_guard : Config (Tracing.Ratio tracing) → Otelx.TracingGuard tracing → M World Service
  unfolding on_broker with_consumer
  with_guard cfg guard = do
    consumer ← on_broker (Kafka.connect_consumer rdkafka (kafka cfg))
    with_consumer guard consumer

  with_tracing : Config (Tracing.Ratio tracing) → M World Service
  unfolding on_process with_guard
  with_tracing cfg = do
    guard ← on_process (Otelx.init tracing (otelx cfg) cfg.log_level cfg.log_format)
    with_guard cfg guard

  -- `main` up to `select!`, from the configuration that `Config::from_env` gives.
  unfoldable pub boot : Result String (Config (Tracing.Ratio tracing)) → M World Service
  unfolding with_tracing
  boot loaded = do cfg ← lift loaded; with_tracing cfg

  -- What a process that has come up is built from.
  pub record IsUp (s : Service) : Type 0 where
    pub brokers_reached : Kafka.IsReached rdkafka s.worker.consumer
    pub server_created : s.server ≡ record { phase = created; health = health }

  with_metrics-IsUp :
      (guard : Otelx.TracingGuard tracing) (consumer : Kafka.Handle rdkafka)
      (metrics : Metrics.Metrics lib) (w : World) (s : Service)
      → Kafka.IsReached rdkafka consumer
      → (with_metrics guard consumer metrics w).1 ≡ ok s
      → IsUp s
  unfolding with_metrics new_worker service_of worker_of
  with_metrics-IsUp guard consumer metrics w s reached e =
      let (worker, made, last, _) =
        >>=-ok (on_store (new_worker consumer metrics.registry))
          (λ worker. return (service_of guard worker)) w e in
      let (both, _, given, _) =
        >>=-ok (counters metrics.registry) (λ both. return (worker_of consumer both)) w.store
          made in
      let same : consumer ≡ worker.consumer = ap (λ x. x.consumer) (ok-inj given) in
      subst IsUp (ok-inj last) (record {
        brokers_reached = subst (Kafka.IsReached rdkafka) same reached;
        server_created = refl;
      })

  -- `boot` succeeds only with brokers that have been reached.
  pub boot-IsUp :
      (loaded : Result String (Config (Tracing.Ratio tracing))) (w : World) (s : Service)
      → (boot loaded w).1 ≡ ok s
      → IsUp s
  unfolding boot with_tracing with_guard with_consumer
  boot-IsUp loaded w s e =
      let (cfg, _, traced, _) = >>=-ok (lift loaded) with_tracing w e in
      let start = on_process (Otelx.init tracing (otelx cfg) cfg.log_level cfg.log_format) in
      let (guard, _, guarded, _) = >>=-ok start (with_guard cfg) w traced in
      let w₁ = (start w).0 in
      let reach = on_broker (Kafka.connect_consumer rdkafka (kafka cfg)) in
      let (consumer, connected, rest, _) = >>=-ok reach (with_consumer guard) w₁ guarded in
      let (reached, _) =
        Kafka.connect_consumer-IsReached rdkafka (kafka cfg) w₁.broker_side consumer connected in
      let (metrics, _, last, _) =
        >>=-ok (on_store (Metrics.new lib)) (with_metrics guard consumer) (reach w₁).0 rest in
      with_metrics-IsUp guard consumer metrics _ s reached last
