-- ===== src/Tracing.antt =====
-- The crates `tracing_subscriber` and `opentelemetry`, as crates/httpx/src/logging.rs and
-- crates/otelx/src/lib.rs use them: a parameter, with its documented behaviour, over the state of
-- the process; and the comparison of texts without ASCII case, of Rust's standard library.
pub mod Sample
use Prim.Native.Char.{code}
use rust_basics.Prelude.{
  ℕ, ◌+◌, ◌≡◌, Bool, true, false, ◌&&◌, Option, none, some, String, Result, leb, ◌==◌,
  if◌then◌else◌,
}

-- The layer that writes events.
pub data Format : Type 0 where
  text json : Format

abbrev to_ascii_lowercase : ℕ → ℕ
to_ascii_lowercase n = if leb 65 n && leb n 90 then n + 32 else n

-- `str::eq_ignore_ascii_case`
unfoldable pub eq_ignore_ascii_case : String → String → Bool
eq_ignore_ascii_case String.[] String.[] = true
eq_ignore_ascii_case String.[] (String.◌∷◌ d t) = false
eq_ignore_ascii_case (String.◌∷◌ c s) String.[] = false
eq_ignore_ascii_case (String.◌∷◌ c s) (String.◌∷◌ d t) =
    let rest = eq_ignore_ascii_case s t in
    (to_ascii_lowercase (code c) == to_ascii_lowercase (code d)) && rest

-- What is handed to `try_init`: a filter, a format, and the tracer of a provider if spans go out.
pub record Subscriber (Filter Provider : Type 0) : Type 0 where
  pub filter : Filter
  pub format : Format
  pub exporter : Option Provider

-- The process, with its environment and its global subscriber, propagator and tracer provider.
-- `provider` builds one from an exporter, the ratio of the sampler and the name of the service.
pub record Tracing : Type 1 where
  pub G : Type 0
  pub Filter : Type 0
  pub Exporter : Type 0
  pub Provider : Type 0
  pub Ratio : Type 0
  pub try_from_default_env : G → Option Filter
  pub try_new : String → Option Filter
  pub new_filter : String → Filter
  pub try_init : Subscriber Filter Provider → G → G
  pub set_text_map_propagator : G → G
  pub build_exporter : String → Result String Exporter
  pub provider : Exporter → Ratio → String → Provider
  pub set_tracer_provider : Provider → G → G
  pub shutdown : Provider → G → G

-- What is there already, or else the new one.
abbrev pub first_of : {A : Type 0} → Option A → A → A
first_of none new = new
first_of (some old) new = old

-- `or_else`, then `unwrap_or_else`.
abbrev pub choose : {A : Type 0} → Option A → Option A → A → A
choose (some f) second last = f
choose none (some f) last = f
choose none none last = last

-- The first subscriber stays: another `try_init` fails and changes nothing. The provider is
-- replaced. Neither touches the other, and the propagator touches neither. `propagates` says whether
-- the process has the propagator that `set_text_map_propagator` is given.
module _ (lib : Tracing) where
  open lib use {
    G, Filter, Provider, try_from_default_env, try_init, set_text_map_propagator,
    set_tracer_provider,
  }

  pub record IsTracing : Type 0 where
    pub subscriber : G → Option (Subscriber Filter Provider)
    pub tracer_provider : G → Option Provider
    pub propagates : G → Bool
    pub subscriber-try_init :
        (s : Subscriber Filter Provider) (g : G)
        → subscriber (try_init s g) ≡ some (first_of (subscriber g) s)
    pub tracer_provider-try_init :
        (s : Subscriber Filter Provider) (g : G)
        → tracer_provider (try_init s g) ≡ tracer_provider g
    pub subscriber-set_text_map_propagator :
        (g : G) → subscriber (set_text_map_propagator g) ≡ subscriber g
    pub tracer_provider-set_text_map_propagator :
        (g : G) → tracer_provider (set_text_map_propagator g) ≡ tracer_provider g
    pub try_from_default_env-set_text_map_propagator :
        (g : G) → try_from_default_env (set_text_map_propagator g) ≡ try_from_default_env g
    pub subscriber-set_tracer_provider :
        (x : Provider) (g : G) → subscriber (set_tracer_provider x g) ≡ subscriber g
    pub tracer_provider-set_tracer_provider :
        (x : Provider) (g : G) → tracer_provider (set_tracer_provider x g) ≡ some x
    pub propagates-set_text_map_propagator : (g : G) → propagates (set_text_map_propagator g) ≡ true
    pub propagates-try_init :
        (s : Subscriber Filter Provider) (g : G) → propagates (try_init s g) ≡ propagates g
    pub propagates-set_tracer_provider :
        (x : Provider) (g : G) → propagates (set_tracer_provider x g) ≡ propagates g
