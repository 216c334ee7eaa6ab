-- ===== src/Tasks/Service.antt =====
-- crates/tasks/src/main.rs: how the service comes up, and what its `/readyz` then answers. The
-- libraries that it connects to keep their states side by side; events of the log are left out.
pub mod Readiness
mod Tests
use rust_basics.Prelude.{◌≡◌, refl, subst, Bool, false, [], String, Result, ok, ok-inj}
use rust_basics.Monad.{M, return, lift, ◌>>=◌, ◌>>◌, >>=-ok}
use rust_basics.Tracing.{Tracing}
use rust_basics.Otelx.Init as Otelx
use rust_basics.Valkey.Connect as Valkey
use rust_basics.Valkey.Connect.{Redis}
use rust_basics.Valkey.Probe.{readiness, valkey_reason, kafka_reason}
use rust_basics.Kafka.Connect as Kafka
use rust_basics.Kafka.Connect.{Rdkafka}
use rust_basics.Httpx.Health as Health
use rust_basics.Httpx.Health.{Health, register}
use rust_basics.Httpx.Server.{Server, created, ready}
use rust_basics.Tasks.Config.{Config, valkey, kafka, otelx}
use rust_basics.Tasks.Handlers.{AppState}

-- The checks that the service registers.
pub data Check : Type 0 where
  valkey_check kafka_check : Check

-- What a check answers, given the two flags.
unfoldable pub answer : Bool → Bool → Check → Result String (Unit {0})
answer cache producer valkey_check = readiness valkey_reason cache
answer cache producer kafka_check = readiness kafka_reason producer

module _ (tracing : Tracing) (redis : Redis) (rdkafka : Rdkafka) where
  pub record World : Type 0 where
    pub process : Tracing.G tracing
    pub cache_side : Redis.W redis
    pub broker_side : Rdkafka.W rdkafka

  on_process : {A : Type 0} → M (Tracing.G tracing) A → M World A
  on_process m w = let (g, result) = m w.process in (record w { process = g }, result)

  on_cache : {A : Type 0} → M (Redis.W redis) A → M World A
  on_cache m w = let (g, result) = m w.cache_side in (record w { cache_side = g }, result)

  on_broker : {A : Type 0} → M (Rdkafka.W rdkafka) A → M World A
  on_broker m w = let (g, result) = m w.broker_side in (record w { broker_side = g }, result)

  pub record Service : Type 0 where
    pub guard : Otelx.TracingGuard tracing
    pub cache : Valkey.Cache redis
    pub producer : Kafka.Producer rdkafka
    pub server : Server Check
    pub state : AppState

  -- `server.health` with its two checks.
  unfoldable pub health : Health Check
  unfolding register
  health = register (register Health.new "valkey" valkey_check) "kafka" kafka_check

  -- The service, once its dependencies are there.
  service_of :
      Config (Tracing.Ratio tracing)
      → Otelx.TracingGuard tracing
      → Valkey.Cache redis
      → Kafka.Producer rdkafka
      → Service
  service_of cfg guard cache producer = record {
    guard = guard;
    cache = cache;
    producer = producer;
    server = record { phase = created; health = health };
    state = record {
      producer = record { default_topic = producer.default_topic };
      topic = cfg.kafka_topic;
    };
  }

  with_broker :
      Config (Tracing.Ratio tracing)
      → Otelx.TracingGuard tracing
      → Valkey.Cache redis
      → M World Service
  unfolding service_of on_broker
  with_broker cfg guard cache = do
    producer ← on_broker (Kafka.connect_producer rdkafka (kafka cfg))
    return (service_of cfg guard cache producer)

  with_cache : Config (Tracing.Ratio tracing) → Otelx.TracingGuard tracing → M World Service
  unfolding on_cache with_broker
  with_cache cfg guard = do
    cache ← on_cache (Valkey.connect redis (valkey cfg))
    with_broker cfg guard cache

  with_tracing : Config (Tracing.Ratio tracing) → M World Service
  unfolding on_process with_cache
  with_tracing cfg = do
    guard ← on_process (Otelx.init tracing (otelx cfg) cfg.log_level cfg.log_format)
    with_cache cfg guard

  -- `main` up to `run`, from the configuration that `Config::load` gives. That an error drops the
  -- guard is left out.
  unfoldable pub boot : Result String (Config (Tracing.Ratio tracing)) → M World Service
  unfolding with_tracing
  boot loaded = do cfg ← lift loaded; with_tracing cfg

  -- What a service that has come up is built from.
  pub record IsUp (cfg : Config (Tracing.Ratio tracing)) (s : Service) : Type 0 where
    pub cache_answered : Valkey.IsAnswered redis s.cache
    pub brokers_reached : Kafka.IsReached rdkafka s.producer.handle_
    pub server_created : s.server ≡ record { phase = created; health = health }
    pub topics :
        (s.state.topic ≡ cfg.kafka_topic) × (s.state.producer.default_topic ≡ cfg.kafka_topic)

  with_broker-IsUp :
      (cfg : Config (Tracing.Ratio tracing)) (guard : Otelx.TracingGuard tracing)
      (cache : Valkey.Cache redis) (w : World) (s : Service)
      → Valkey.IsAnswered redis cache
      → (with_broker cfg guard cache w).1 ≡ ok s
      → IsUp cfg s
  unfolding with_broker kafka
  with_broker-IsUp cfg guard cache w s answered e =
      let (producer, connected, last, _) =
        >>=-ok (on_broker (Kafka.connect_producer rdkafka (kafka cfg)))
          (λ producer. return (service_of cfg guard cache producer)) w e in
      let (reached, topic) =
        Kafka.connect_producer-IsReached rdkafka (kafka cfg) w.broker_side producer connected in
      subst (IsUp cfg) (ok-inj last) (record {
        cache_answered = answered;
        brokers_reached = reached;
        server_created = refl;
        topics = (refl, topic);
      })

  -- `boot` succeeds only with a configuration that loads, a cache that has answered and brokers that
  -- have been reached.
  pub boot-IsUp :
      (loaded : Result String (Config (Tracing.Ratio tracing))) (w : World) (s : Service)
      → (boot loaded w).1 ≡ ok s
      → (cfg : Config (Tracing.Ratio tracing)) × (loaded ≡ ok cfg) × IsUp cfg s
  unfolding boot with_tracing with_cache
  boot-IsUp loaded w s e =
      let (cfg, read, traced, _) = >>=-ok (lift loaded) with_tracing w e in
      let (guard, _, cached, _) =
        >>=-ok (on_process (Otelx.init tracing (otelx cfg) cfg.log_level cfg.log_format))
          (with_cache cfg) w traced in
      let w₁ = (on_process (Otelx.init tracing (otelx cfg) cfg.log_level cfg.log_format) w).0 in
      let (cache, connected, rest, _) =
        >>=-ok (on_cache (Valkey.connect redis (valkey cfg))) (with_broker cfg guard) w₁ cached in
      let answered = Valkey.connect-IsAnswered redis (valkey cfg) w₁.cache_side cache connected in
      (cfg, read, with_broker-IsUp cfg guard cache _ s answered rest)
