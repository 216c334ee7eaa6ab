-- ===== src/Otelx/Init.antt =====
-- crates/otelx/src/lib.rs: `init`, and the guard that flushes the exporter when it is dropped. The
-- version of the crate that goes out with the spans is left out.
use rust_basics.Prelude.{
  ◌≡◌, ◌∙◌, refl, sym, subst, ◌↔◌, ◌⊎◌, inl, inr, true, false, Option, none, some, String, Result,
  ok, err, if◌then◌else◌, Bool-cases, Result-cases, ok-inj,
}
use rust_basics.Monad.{M, lift, ◌>>=◌}
use rust_basics.Tracing.{
  Format, text, json, eq_ignore_ascii_case, Subscriber, Tracing, IsTracing, first_of, choose,
}
use rust_basics.Otelx.{Config}

module _ (lib : Tracing) where
  open lib use {
    G, Filter, Exporter, Provider, Ratio, try_from_default_env, try_new, new_filter, try_init,
    set_text_map_propagator, build_exporter, provider, set_tracer_provider, shutdown,
  }

  pub record TracingGuard : Type 0 where
    pub provider : Option Provider

  -- `drop`
  unfoldable pub drop : TracingGuard → G → G
  drop guard g = elim guard.provider [ none ↦ g | some p ↦ shutdown p g ]

  unfoldable pub filter_of : String → G → Filter
  filter_of level g = choose (try_from_default_env g) (try_new level) (new_filter "info")

  abbrev pub format_of : String → Format
  format_of format = if eq_ignore_ascii_case format "text" then text else json

  abbrev pub subscriber_of : String → String → Option Provider → G → Subscriber Filter Provider
  subscriber_of level format exporter g = record {
    filter = filter_of level g;
    format = format_of format;
    exporter = exporter;
  }

  abbrev pub replaced : Option Provider → Option Provider → Option Provider
  replaced none old = old
  replaced (some p) old = some p

  -- With the exporter at hand: the provider, and the subscriber that sends spans to it.
  export_to : Config Ratio → String → String → Exporter → M G TracingGuard
  export_to cfg level format exporter g =
      let p = provider exporter cfg.otel_sampler_ratio cfg.otel_service_name in
      let g₁ = set_tracer_provider p g in
      (try_init (subscriber_of level format (some p) g) g₁, ok (record { provider = some p }))

  unfoldable pub init : Config Ratio → String → String → M G TracingGuard
  unfolding export_to
  init cfg level format g =
      let g₁ = set_text_map_propagator g in
      let exporting = do
        exporter ← lift (build_exporter cfg.otel_endpoint)
        export_to cfg level format exporter
      in if cfg.otel_enabled
        then exporting g₁
        else (try_init (subscriber_of level format none g₁) g₁, ok (record { provider = none }))

  module _ (law : IsTracing lib) where
    open law use {
      subscriber, tracer_provider, subscriber-try_init, tracer_provider-try_init,
      subscriber-set_text_map_propagator, tracer_provider-set_text_map_propagator,
      try_from_default_env-set_text_map_propagator, subscriber-set_tracer_provider,
      tracer_provider-set_tracer_provider, propagates, propagates-set_text_map_propagator,
      propagates-try_init, propagates-set_tracer_provider,
    }

    asked :
        (level format : String) (exporter : Option Provider) (g : G)
        → subscriber_of level format exporter (set_text_map_propagator g)
          ≡ subscriber_of level format exporter g
    unfolding filter_of
    asked level format exporter g i = record {
      filter =
          choose (try_from_default_env-set_text_map_propagator g i) (try_new level)
            (new_filter "info");
      format = format_of format;
      exporter = exporter;
    }

    -- `init` fails only if tracing is on and the exporter cannot be built, and then the process keeps
    -- its subscriber and its tracer provider, or the lack of them. Where it succeeds, a process
    -- without a subscriber gets one with the filter and the format that were asked for, another
    -- process keeps its own, and the guard holds a provider exactly if tracing is on; that provider
    -- is then the one of the process. The propagator is installed in either case, also if it fails.
    pub init-subscriber :
        (cfg : Config Ratio) (level format : String) (g : G)
        → let (after, result) = init cfg level format g in
          (propagates after ≡ true)
          × (((e : String) × (result ≡ err e)
                × (cfg.otel_enabled ≡ true)
                × (build_exporter cfg.otel_endpoint ≡ err e)
                × (subscriber after ≡ subscriber g)
                × (tracer_provider after ≡ tracer_provider g))
              ⊎ ((guard : TracingGuard) × (result ≡ ok guard)
                  × (subscriber after
                      ≡ some
                          (first_of (subscriber g) (subscriber_of level format guard.provider g)))
                  × ((guard.provider ≡ none) ↔ (cfg.otel_enabled ≡ false))
                  × (tracer_provider after ≡ replaced guard.provider (tracer_provider g))))
    unfolding init
    init-subscriber cfg level format g =
        let g₁ = set_text_map_propagator g in
        let set = propagates-set_text_map_propagator g in
        elim (Bool-cases cfg.otel_enabled) [
          | inr off ↦
              rw (off, init)
                (
                  propagates-try_init _ g₁ ∙ set,
                  inr (
                    record { provider = none },
                    refl,
                    subscriber-try_init (subscriber_of level format none g₁) g₁ ∙ (λ i. some (
                        first_of (subscriber-set_text_map_propagator g i)
                          (asked level format none g i))),
                    (λ h. refl, λ h. refl),
                    tracer_provider-try_init _ g₁ ∙ tracer_provider-set_text_map_propagator g,
                  ),
                )
          | inl on ↦ elim (Result-cases (build_exporter cfg.otel_endpoint)) [
            | inr (e, failed) ↦
                rw (on, failed, init)
                  (
                    set,
                    inl (
                      e,
                      refl,
                      refl,
                      refl,
                      subscriber-set_text_map_propagator g,
                      tracer_provider-set_text_map_propagator g,
                    ),
                  )
            | inl (exporter, built) ↦
                let p = provider exporter cfg.otel_sampler_ratio cfg.otel_service_name in
                let kept =
                  subscriber-set_tracer_provider p g₁ ∙ subscriber-set_text_map_propagator g in
                rw (on, built, init)
                  (
                    propagates-try_init _ _ ∙ propagates-set_tracer_provider p g₁ ∙ set,
                    inr (
                      record { provider = some p },
                      refl,
                      subscriber-try_init (subscriber_of level format (some p) g₁)
                            (set_tracer_provider p g₁)
                          ∙ (λ i. some (first_of (kept i) (asked level format (some p) g i))),
                      (λ h. cc, λ h. cc),
                      tracer_provider-try_init _ (set_tracer_provider p g₁)
                          ∙ tracer_provider-set_tracer_provider p g₁,
                    ),
                  )
          ]
        ]

    abbrev Installed : Config Ratio → String → String → G → TracingGuard → Type 0
    Installed cfg level format g guard =
        let after = (init cfg level format g).0 in
        (subscriber after
          ≡ some (first_of (subscriber g) (subscriber_of level format guard.provider g)))
        × (tracer_provider after ≡ replaced guard.provider (tracer_provider g))

    init-Installed :
        (cfg : Config Ratio) (level format : String) (g : G) (guard : TracingGuard)
        → (init cfg level format g).1 ≡ ok guard
        → Installed cfg level format g guard
    init-Installed cfg level format g guard h = elim (init-subscriber cfg level format g).1 [
      | inl (e, failed, _, _, _, _) ↦ absurd (err≢ok e guard (sym failed ∙ h))
      | inr (found, done, installed, _, provided) ↦
          subst (Installed cfg level format g) (ok-inj (sym done ∙ h)) (installed, provided)
    ]
      where
        err≢ok :
            (e : String) (guard : TracingGuard)
            → ◌≡◌ {A = Result String TracingGuard} (err e) (ok guard)
            → ⊥
        err≢ok e guard q = cc

    -- A second `init` that succeeds keeps the subscriber of the first, with its filter, its format
    -- and its exporter. But if tracing is on in it, then its provider takes the place of the first
    -- one as the process's.
    pub init-again :
        (cfg again : Config Ratio) (level format level' format' : String) (g : G)
        (guard guard' : TracingGuard)
        → (init cfg level format g).1 ≡ ok guard
        → (init again level' format' (init cfg level format g).0).1 ≡ ok guard'
        → let first = (init cfg level format g).0 in
          let second = (init again level' format' first).0 in
          (subscriber second ≡ subscriber first)
          × (tracer_provider second ≡ replaced guard'.provider (tracer_provider first))
    init-again cfg again level format level' format' g guard guard' h k =
        let first = (init cfg level format g).0 in
        let (installed, _) = init-Installed cfg level format g guard h in
        let (kept, provided) = init-Installed again level' format' first guard' k in
        (
          kept
              ∙ (λ i.
                  some
                    (first_of (installed i) (subscriber_of level' format' guard'.provider first)))
              ∙ sym installed,
          provided,
        )
