-- ===== src/Heartbeat/Service.antt =====
-- crates/heartbeat/src/main.rs and the metrics of `Worker::new`: how the worker's process comes up
-- and how it ends. An `IntCounter` is a vector without labels here. How reqwest builds its client is
-- given by the result. Events of the log are left out.
use rust_basics.Prelude.{
  ℕ, ◌≡◌, ap, Option, none, some, [], ◌∷◌, String, Result, ok, ok-inj, subst, sym,
}
use rust_basics.Monad.{M, return, lift, ◌>>=◌, ◌>>◌, >>=-ok}
use rust_basics.Tracing.{Tracing}
use rust_basics.Prometheus.{Prometheus, counter}
use rust_basics.Httpx.Health as Health
use rust_basics.Httpx.Logging.{init_tracing}
use rust_basics.Httpx.Metrics as Http
use rust_basics.Httpx.Server.{Server, created}
use rust_basics.Resilient.Platform.{Platform}
use rust_basics.Resilient.Metrics as Outbound
use rust_basics.Heartbeat.{Worker, new_worker}
use rust_basics.Heartbeat.Config.{Config, interval}

-- Which half of the `select!` ends first.
pub data Ended : Type 0 where
  server_ended : Result String (Unit {0}) → Ended
  worker_ended : Ended

-- The result of `main`: the other half is dropped.
unfoldable pub finish : Ended → Result String (Unit {0})
finish (server_ended result) = result
finish worker_ended = ok tt

module _ (tracing : Tracing) (lib : Prometheus) (p : Platform) where
  open lib use {S, Vector, Registry, new_vector, register}

  -- The metrics of a worker with an upstream: its own, and those of its client.
  pub record Checks : Type 0 where
    pub checks : Vector counter
    pub outbound : Outbound.Metrics lib

  pub record Handles : Type 0 where
    pub beats : Vector counter
    pub upstream : Option Checks

  -- The result of building reqwest's client, after which the client cannot fail.
  with_outbound :
      Result String (Unit {0}) → Vector counter → Outbound.Metrics lib → M S (Option Checks)
  with_outbound built checks outbound = do
    lift built
    return (some (record { checks = checks; outbound = outbound }))

  with_checks : Result String (Unit {0}) → Registry → Vector counter → M S (Option Checks)
  unfolding with_outbound
  with_checks built registry checks = do
    register registry checks
    outbound ← Outbound.new lib
    with_outbound built checks outbound

  -- The half of `Worker::new` that polls.
  unfoldable pub new_checks :
      Result String (Unit {0}) → Registry → Option String → M S (Option Checks)
  unfolding with_checks
  new_checks built registry none = return none
  new_checks built registry (some url) = do
    checks ←
        new_vector counter
          (record {
            name = "heartbeat_upstream_checks_total";
            help = "Upstream health checks performed each tick, by result.";
          })
          ("result" ∷ [])
    with_checks built registry checks

  with_beats : Result String (Unit {0}) → Registry → Option String → Vector counter → M S Handles
  unfolding new_checks
  with_beats built registry upstream_url beats = do
    upstream ← new_checks built registry upstream_url
    return (record { beats = beats; upstream = upstream })

  unfoldable pub new_handles : Result String (Unit {0}) → Registry → Option String → M S Handles
  unfolding with_beats
  new_handles built registry upstream_url = do
    beats ←
        new_vector counter
          (record {
            name = "heartbeat_beats_total";
            help = "Total number of heartbeats emitted since process start.";
          })
          []
    register registry beats
    with_beats built registry upstream_url beats

  -- The process's tracing and metrics.
  pub record World : Type 0 where
    pub process : Tracing.G tracing
    pub store : S

  on_store : {A : Type 0} → M S A → M World A
  on_store m w = let (s, result) = m w.store in (record w { store = s }, result)

  on_process : (Tracing.G tracing → Tracing.G tracing) → M World (Unit {0})
  on_process f w = (record w { process = f w.process }, ok tt)

  -- The server has no check.
  pub data NoCheck : Type 0 where

  pub record Service : Type 0 where
    pub handles : Handles
    pub worker : Worker p
    pub server : Server NoCheck

  service_of : Config → ℕ → Handles → Service
  service_of cfg now handles = record {
    handles = handles;
    worker = new_worker p (interval cfg) cfg.upstream_url now;
    server = record { phase = created; health = Health.new };
  }

  with_metrics : Result String (Unit {0}) → ℕ → Config → Http.Metrics lib → M World Service
  unfolding on_store service_of
  with_metrics built now cfg metrics = do
    handles ← on_store (new_handles built metrics.registry cfg.upstream_url)
    return (service_of cfg now handles)

  with_tracing : Result String (Unit {0}) → ℕ → Config → M World Service
  unfolding on_store with_metrics
  with_tracing built now cfg = do
    metrics ← on_store (Http.new lib)
    with_metrics built now cfg metrics

  with_config : Result String (Unit {0}) → ℕ → Config → M World Service
  unfolding on_process with_tracing
  with_config built now cfg = do
    on_process (init_tracing tracing cfg.log_level cfg.log_format)
    with_tracing built now cfg

  -- `main` up to `select!` at the time `now`, from what `Config::from_env` gives.
  unfoldable pub boot : Result String (Unit {0}) → ℕ → Result String Config → M World Service
  unfolding with_config
  boot built now loaded = do cfg ← lift loaded; with_config built now cfg

  -- The metrics for an upstream are there exactly if the worker has one.
  abbrev pub FitsUpstream : Option Checks → Option String → Type 0
  FitsUpstream none none = Unit {0}
  FitsUpstream (some checks) (some url) = Unit {0}
  FitsUpstream none (some url) = ⊥
  FitsUpstream (some checks) none = ⊥

  with_checks-some :
      (built : Result String (Unit {0})) (registry : Registry) (v : Vector counter) (s : S)
      (checks : Option Checks)
      → (with_checks built registry v s).1 ≡ ok checks
      → (c : Checks) × (checks ≡ some c)
  unfolding with_checks with_outbound
  with_checks-some built registry v s checks e =
      let (_, _, e₁, _) =
        >>=-ok (register registry v) (λ _. Outbound.new lib >>= with_outbound built v) s e in
      let (outbound, _, e₂, _) = >>=-ok (Outbound.new lib) (with_outbound built v) _ e₁ in
      let made : Checks = record { checks = v; outbound = outbound } in
      let (_, _, last, _) = >>=-ok (lift built) (λ _. return (some made)) _ e₂ in
      (made, sym (ok-inj last))

  new_checks-FitsUpstream :
      (built : Result String (Unit {0})) (registry : Registry) (url : Option String) (s : S)
      (checks : Option Checks)
      → (new_checks built registry url s).1 ≡ ok checks
      → FitsUpstream checks url
  unfolding new_checks
  new_checks-FitsUpstream built registry none s checks e =
      subst (λ c. FitsUpstream c none) (ok-inj e) tt
  new_checks-FitsUpstream built registry (some url) s checks e =
      let (v, _, rest, _) = >>=-ok (new_vector counter _ _) (with_checks built registry) s e in
      let (c, is) = with_checks-some built registry v _ checks rest in
      subst (λ c. FitsUpstream c (some url)) (sym is) tt

  new_handles-FitsUpstream :
      (built : Result String (Unit {0})) (registry : Registry) (url : Option String) (s : S)
      (handles : Handles)
      → (new_handles built registry url s).1 ≡ ok handles
      → FitsUpstream handles.upstream url
  unfolding new_handles with_beats
  new_handles-FitsUpstream built registry url s handles e =
      let (v, _, e₁, _) =
        >>=-ok (new_vector counter _ _)
          (λ v. register registry v >>= λ _. with_beats built registry url v) s e in
      let (_, _, e₂, _) =
        >>=-ok (register registry v) (λ _. with_beats built registry url v) _ e₁ in
      let (checks, made, last, _) =
        >>=-ok (new_checks built registry url) (λ u. return (record { beats = v; upstream = u })) _
          e₂ in
      subst (λ h. FitsUpstream h.upstream url) (ok-inj last)
        (new_checks-FitsUpstream built registry url _ checks made)

  -- A process that has come up has the worker that its configuration asks for, metrics for an
  -- upstream if the configuration names one, and a server whose gate is closed.
  boot-service :
      (built : Result String (Unit {0})) (now : ℕ) (loaded : Result String Config) (w : World)
      (s : Service)
      → (boot built now loaded w).1 ≡ ok s
      → (cfg : Config) × (loaded ≡ ok cfg)
        × (s.worker ≡ new_worker p (interval cfg) cfg.upstream_url now)
        × FitsUpstream s.handles.upstream cfg.upstream_url
        × (s.server ≡ record { phase = created; health = Health.new })
  unfolding boot with_config with_tracing with_metrics service_of on_store
  boot-service built now loaded w s e =
      let (cfg, given, e₁, _) = >>=-ok (lift loaded) (with_config built now) w e in
      let start = on_process (init_tracing tracing cfg.log_level cfg.log_format) in
      let (_, _, e₂, _) = >>=-ok start (λ _. with_tracing built now cfg) w e₁ in
      let w₁ = (start w).0 in
      let (metrics, _, e₃, _) =
        >>=-ok (on_store (Http.new lib)) (with_metrics built now cfg) w₁ e₂ in
      let w₂ = (on_store (Http.new lib) w₁).0 in
      let (handles, made, last, _) =
        >>=-ok (on_store (new_handles built metrics.registry cfg.upstream_url))
          (λ handles. return (service_of cfg now handles)) w₂ e₃ in
      let same : service_of cfg now handles ≡ s = ok-inj last in
      let fits =
        new_handles-FitsUpstream built metrics.registry cfg.upstream_url w₂.store handles made in
      (
        cfg,
        given,
        ap (λ s. s.worker) (sym same),
        subst (λ s. FitsUpstream s.handles.upstream cfg.upstream_url) same fits,
        ap (λ s. s.server) (sym same),
      )
