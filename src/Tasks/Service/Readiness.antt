-- ===== src/Tasks/Service/Readiness.antt =====
-- When the tasks service reports that it is ready.
use rust_basics.Prelude.{
  ◌≡◌, ◌∙◌, refl, sym, ap, ◌↔◌, Bool, true, false, List, String, Result, ok, arith, insert, lookup,
}
use rust_basics.Tracing.{Tracing}
use rust_basics.Valkey.Connect.{Redis}
use rust_basics.Valkey.Probe.{probe, Latest, probe-Latest, readiness, valkey_reason, kafka_reason}
use rust_basics.Kafka.Connect.{Rdkafka}
use rust_basics.Httpx.Health.{is_ready, AllOk}
use rust_basics.Httpx.Server.{Event, run, ready, GateFits, run-ready}
use rust_basics.Tasks.Config.{Config}
use rust_basics.Tasks.Service.{answer, World, Service, health, boot, boot-IsUp}

readiness_iff : (reason : String) (b : Bool) → (readiness reason b ≡ ok tt) ↔ (b ≡ true)
unfolding readiness
readiness_iff reason b = ground arith

module _ (tracing : Tracing) (redis : Redis) (rdkafka : Rdkafka) where
  -- The two registered checks are well exactly when both flags are up.
  checks-AllOk :
      (cache producer : Bool)
      → AllOk (answer cache producer) (health tracing redis rdkafka).checks
        ↔ ((cache ≡ true) × (producer ≡ true))
  unfolding health insert lookup answer
  checks-AllOk cache producer =
      let a = readiness_iff valkey_reason cache in
      let b = readiness_iff kafka_reason producer in
      (λ h. (a.0 h.0, b.0 h.1.0), λ h. (a.1 h.0, (b.1 h.1, tt)))

  health_closed : is_ready (health tracing redis rdkafka) ≡ false
  unfolding health is_ready
  health_closed = refl

  -- A service that has booted answers 200 to `/readyz` exactly when its gate is open and the last
  -- tick of each probe, for which the connection counts at first, found the cache and the brokers
  -- there, whatever the earlier ticks found and whatever happened before to the server. The gate is
  -- open while the server listens, and otherwise only if serving failed while it listened.
  pub boot-ready :
      (loaded : Result String (Config (Tracing.Ratio tracing))) (w : World tracing redis rdkafka)
      (s : Service tracing redis rdkafka) (events : List Event)
      (cache_ticks broker_ticks : List Bool) (cache_there brokers_there : Bool)
      → (boot tracing redis rdkafka loaded w).1 ≡ ok s
      → Latest cache_there cache_ticks
      → Latest brokers_there broker_ticks
      → let server = run events s.server in
        let cache = probe s.cache.healthy cache_ticks in
        let brokers = probe s.producer.handle_.healthy broker_ticks in
        (((ready (answer cache brokers) server.health).status ≡ 200)
          ↔ ((is_ready server.health ≡ true) × (cache_there ≡ true) × (brokers_there ≡ true)))
        × GateFits server
  unfolding is_ready
  boot-ready loaded w s events cache_ticks broker_ticks cache_there brokers_there up last last' =
      let (cfg, _, parts) = boot-IsUp tracing redis rdkafka loaded w s up in
      let cache = probe s.cache.healthy cache_ticks in
      let brokers = probe s.producer.handle_.healthy broker_ticks in
      let (status, gate) =
        run-ready (answer cache brokers) events s.server (health tracing redis rdkafka)
          parts.server_created health_closed in
      let flags = checks-AllOk cache brokers in
      let c : cache ≡ cache_there =
        ap (λ b. probe b cache_ticks) parts.cache_answered.starts_healthy
        ∙ probe-Latest cache_there cache_ticks last in
      let b : brokers ≡ brokers_there =
        ap (λ b. probe b broker_ticks) parts.brokers_reached.starts_healthy
        ∙ probe-Latest brokers_there broker_ticks last' in
      (
        (
          λ e.
              let (open_gate, all) = status.0 e in
              let (x, y) = flags.0 all in (open_gate, sym c ∙ x, sym b ∙ y),
          λ (open_gate, x, y). status.1 (open_gate, flags.1 (c ∙ x, b ∙ y)),
        ),
        gate,
      )
