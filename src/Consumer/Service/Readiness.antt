-- ===== src/Consumer/Service/Readiness.antt =====
-- When the consumer reports that it is ready.
use rust_basics.Prelude.{
  ◌≡◌, ◌∙◌, refl, sym, ap, ◌↔◌, arith, Bool, true, false, List, String, Result, ok, insert,
}
use rust_basics.Tracing.{Tracing}
use rust_basics.Prometheus.{Prometheus}
use rust_basics.Valkey.Probe.{probe, readiness}
use rust_basics.Kafka.Connect.{Rdkafka}
use rust_basics.Httpx.Health.{is_ready, AllOk}
use rust_basics.Httpx.Server.{Event, run, ready, GateFits, run-ready}
use rust_basics.Consumer.Config.{Config}
use rust_basics.Consumer.Service.{answer, World, Service, health, boot, boot-IsUp}

module _ (tracing : Tracing) (rdkafka : Rdkafka) (lib : Prometheus) where
  health_closed : is_ready (health tracing rdkafka lib) ≡ false
  unfolding health is_ready
  health_closed = refl

  check_iff :
      (healthy : Bool)
      → AllOk (answer healthy) (health tracing rdkafka lib).checks ↔ (healthy ≡ true)
  unfolding health insert answer readiness
  check_iff healthy = (λ h. let ok_ = h.0 in ground arith, λ h. (ground arith, tt))

  -- A consumer that has booted answers 200 to `/readyz` exactly when its gate is open and the last
  -- tick of its probe, for which the connection counts at first, found the brokers there. The gate is
  -- open while the server listens, and otherwise only if serving failed while it listened.
  reports_ready :
      (loaded : Result String (Config (Tracing.Ratio tracing))) (w : World tracing rdkafka lib)
      (s : Service tracing rdkafka lib) (events : List Event) (ticks : List Bool)
      → (boot tracing rdkafka lib loaded w).1 ≡ ok s
      → let server = run events s.server in
        let healthy = probe s.worker.consumer.healthy ticks in
        (((ready (answer healthy) server.health).status ≡ 200)
          ↔ ((is_ready server.health ≡ true) × (probe true ticks ≡ true)))
        × GateFits server
  reports_ready loaded w s events ticks up =
      let parts = boot-IsUp tracing rdkafka lib loaded w s up in
      let healthy = probe s.worker.consumer.healthy ticks in
      let (status, gate) =
        run-ready (answer healthy) events s.server (health tracing rdkafka lib) parts.server_created
          health_closed in
      let b : probe true ticks ≡ healthy =
        ap (λ b. probe b ticks) (sym parts.brokers_reached.starts_healthy) in
      (
        (
          λ e. let (open_gate, all) = status.0 e in (open_gate, b ∙ (check_iff healthy).0 all),
          λ (open_gate, x). status.1 (open_gate, (check_iff healthy).1 (sym b ∙ x)),
        ),
        gate,
      )
