-- ===== src/Tasks/Service/Tests.antt =====
-- The boot of the tasks service at a concrete run: the cache and the brokers are there.
use rust_basics.Prelude.{◌≡◌, refl, ◌↔◌, true, false, inl, inr, none, [], ◌∷◌, String, ok}
use rust_basics.Tracing.Sample.{process, fresh}
use rust_basics.Otelx.Init as Otelx
use rust_basics.Valkey.Connect as Valkey
use rust_basics.Valkey.Connect.{Redis}
use rust_basics.Valkey.Probe.{probe}
use rust_basics.Kafka.Connect as Kafka
use rust_basics.Kafka.Sample.{rdkafka}
use rust_basics.Httpx.Health.{is_ready}
use rust_basics.Httpx.Server.{bound, created, run, ready, GateFits}
use rust_basics.Tasks.Config.{default, valkey, kafka, otelx}
use rust_basics.Tasks.Service.{World, Service, answer, health, boot}
use rust_basics.Tasks.Service.Readiness.{boot-ready}

abbrev redis : Redis
redis = record {
  W = Unit {0};
  Client = String;
  Conn = String;
  open_client = λ url. ok url;
  get_connection_manager = λ client w. (w, ok client);
  ping = λ conn w. (w, ok "PONG");
}

abbrev world : World process redis rdkafka
world = record { process = fresh; cache_side = tt; broker_side = tt }

abbrev service : Service process redis rdkafka
service = record {
  guard = record { provider = none };
  cache = record { conn = "redis://127.0.0.1:6379"; healthy = true; period = 5000 };
  producer = record {
    handle_ = record {
      inner =
          ("bootstrap.servers", "localhost:9092")
          ∷ ("client.id", "tasks")
          ∷ ("message.timeout.ms", "5000")
          ∷ [];
      healthy = true;
      period = 5000;
    };
    default_topic = "tasks.events";
  };
  server = record { phase = created; health = health process redis rdkafka };
  state = record { producer = record { default_topic = "tasks.events" }; topic = "tasks.events" };
}

boot-ready_example :
    let server = run (bound ∷ []) service.server in
    let cache = probe true (false ∷ true ∷ []) in
    let brokers = probe true [] in
    (((ready (answer cache brokers) server.health).status ≡ 200)
      ↔ ((is_ready server.health ≡ true) × (true ≡ true) × (true ≡ true)))
    × GateFits server
unfolding boot Otelx.init Valkey.connect Kafka.connect_producer default valkey kafka otelx
boot-ready_example =
    boot-ready process redis rdkafka (ok (default 1)) world service (bound ∷ []) (false ∷ true ∷ [])
      [] true true refl (inr (false ∷ [], refl)) (inl (refl, refl))
