-- ===== src/Kafka/Connect.antt =====
-- crates/kafka/src/lib.rs: `connect` of the producer and of the consumer, and one tick of the probe.
-- The client library is a parameter.
use rust_basics.Prelude.{
  ℕ, ◌*◌, ◌≤◌, ◌≡◌, refl, sym, subst, Bool, true, false, Option, none, some, List, [], ◌∷◌, String,
  ok, max, arith, ok-inj,
}
use rust_basics.Monad.{M, return, ◌>>=◌, ◌>>◌, >>=-ok}
use rust_basics.Kafka.Config.{Config}

-- What the crate calls: `create` with the settings, `subscribe` and `fetch_metadata`, which fails
-- also where the thread of the blocking pool does.
pub record Rdkafka : Type 1 where
  pub W : Type 0
  pub Inner : Type 0
  pub create : List (String × String) → M W Inner
  pub subscribe : List String → Inner → M W (Unit {0})
  pub fetch_metadata : Inner → M W (Unit {0})

-- The health of a tick, from what `spawn_blocking` gives: `unwrap_or(false)`.
unfoldable pub tick : Option Bool → Bool
tick none = false
tick (some reached) = reached

module _ (lib : Rdkafka) where
  open lib use {W, Inner, create, subscribe, fetch_metadata}

  -- A client, with the flag that its probe writes and the time between two ticks in milliseconds.
  pub record Handle : Type 0 where
    pub inner : Inner
    pub healthy : Bool
    pub period : ℕ

  handle : Config → Inner → Handle
  handle cfg inner = record {
    inner = inner;
    healthy = true;
    period = max cfg.kafka_probe_secs 1 * 1000;
  }

  reach : Config → Inner → M W Handle
  unfolding handle
  reach cfg inner = do fetch_metadata inner; return (handle cfg inner)

  pub record Producer : Type 0 where
    pub handle_ : Handle
    pub default_topic : String

  abbrev producer_settings : Config → List (String × String)
  producer_settings cfg =
      ("bootstrap.servers", cfg.kafka_brokers)
      ∷ ("client.id", cfg.kafka_client_id)
      ∷ ("message.timeout.ms", "5000")
      ∷ []

  -- `Producer::connect`
  unfoldable pub connect_producer : Config → M W Producer
  unfolding reach
  connect_producer cfg = do
    inner ← create (producer_settings cfg)
    h ← reach cfg inner
    return (record { handle_ = h; default_topic = cfg.kafka_topic })

  abbrev consumer_settings : Config → List (String × String)
  consumer_settings cfg =
      ("bootstrap.servers", cfg.kafka_brokers)
      ∷ ("group.id", cfg.kafka_group)
      ∷ ("client.id", cfg.kafka_client_id)
      ∷ ("enable.auto.commit", "false")
      ∷ ("auto.offset.reset", "earliest")
      ∷ []

  -- `Consumer::connect`.
  unfoldable pub connect_consumer : Config → M W Handle
  unfolding reach
  connect_consumer cfg = do
    inner ← create (consumer_settings cfg)
    subscribe (cfg.kafka_topic ∷ []) inner
    reach cfg inner

  -- The handle is one whose brokers have answered a query; it counts as healthy, and its probe waits
  -- at least a second between two ticks.
  pub record IsReached (h : Handle) : Type 0 where
    pub before : W
    pub reached : (fetch_metadata h.inner before).1 ≡ ok tt
    pub starts_healthy : h.healthy ≡ true
    pub period_pos : 1000 ≤ h.period

  reach-IsReached :
      (cfg : Config) (inner : Inner) (w : W) (h : Handle)
      → (reach cfg inner w).1 ≡ ok h
      → IsReached h × (h.inner ≡ inner)
  unfolding reach
  reach-IsReached cfg inner w h e =
      let (_, reached, rest, _) =
        >>=-ok (fetch_metadata inner) (λ _. return (handle cfg inner)) w e in
      subst (λ h. IsReached h × (h.inner ≡ inner)) (ok-inj rest)
        (
          record { before = w; reached = reached; starts_healthy = refl; period_pos = omega arith },
          refl,
        )

  -- A producer is handed out only after its brokers have answered, and with the topic of the
  -- configuration.
  pub connect_producer-IsReached :
      (cfg : Config) (w : W) (producer : Producer)
      → (connect_producer cfg w).1 ≡ ok producer
      → IsReached producer.handle_ × (producer.default_topic ≡ cfg.kafka_topic)
  unfolding connect_producer
  connect_producer-IsReached cfg w producer e =
      let finish : Handle → Producer =
        λ h. record { handle_ = h; default_topic = cfg.kafka_topic } in
      let (inner, _, rest, _) =
        >>=-ok (create (producer_settings cfg))
          (λ inner. reach cfg inner >>= λ h. return (finish h)) w e in
      let (h, reached, last, _) = >>=-ok (reach cfg inner) (λ h. return (finish h)) _ rest in
      subst (λ p. IsReached p.handle_ × (p.default_topic ≡ cfg.kafka_topic)) (ok-inj last)
        ((reach-IsReached cfg inner _ h reached).0, refl)

  -- So is a consumer, and after it has subscribed to the topic of the configuration.
  pub connect_consumer-IsReached :
      (cfg : Config) (w : W) (h : Handle)
      → (connect_consumer cfg w).1 ≡ ok h
      → IsReached h × ((w' : W) × ((subscribe (cfg.kafka_topic ∷ []) h.inner w').1 ≡ ok tt))
  unfolding connect_consumer
  connect_consumer-IsReached cfg w h e =
      let topics = cfg.kafka_topic ∷ [] in
      let (inner, _, rest, _) =
        >>=-ok (create (consumer_settings cfg)) (λ inner. subscribe topics inner >> reach cfg inner)
          w e in
      let (_, subscribed, last, _) =
        >>=-ok (subscribe topics inner) (λ _. reach cfg inner) _ rest in
      let (reached, same) = reach-IsReached cfg inner _ h last in
      let w' = (create (consumer_settings cfg) w).0 in
      (reached, (w', subst (λ x. (subscribe topics x w').1 ≡ ok tt) (sym same) subscribed))
