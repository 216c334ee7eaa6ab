-- ===== src/Tracing/Sample.antt =====
-- A process that keeps its subscriber and its provider in memory, for the tests. Every endpoint but
-- the empty one has an exporter, and `RUST_LOG` is not set.
use rust_basics.Prelude.{
  refl, ℕ, Bool, true, false, Option, none, some, String, str_eq, ok, err, if◌then◌else◌,
}
use rust_basics.Tracing.{Subscriber, Tracing, IsTracing, first_of}

pub record Process : Type 0 where
  pub installed : Option (Subscriber String String)
  pub provided : Option String
  pub propagating : Bool

abbrev pub process : Tracing
process = record {
  G = Process;
  Filter = String;
  Exporter = String;
  Provider = String;
  Ratio = ℕ;
  try_from_default_env = λ g. none;
  try_new = λ level. some level;
  new_filter = λ level. level;
  try_init = λ s g. record g { installed = some (first_of g.installed s) };
  set_text_map_propagator = λ g. record g { propagating = true };
  build_exporter = λ endpoint. if str_eq endpoint "" then err "no endpoint" else ok endpoint;
  provider = λ exporter ratio name. exporter;
  set_tracer_provider = λ p g. record g { provided = some p };
  shutdown = λ p g. g;
}

abbrev pub process-IsTracing : IsTracing process
process-IsTracing = record {
  subscriber = λ g. g.installed;
  tracer_provider = λ g. g.provided;
  propagates = λ g. g.propagating;
  subscriber-try_init = λ s g. refl;
  tracer_provider-try_init = λ s g. refl;
  subscriber-set_text_map_propagator = λ g. refl;
  tracer_provider-set_text_map_propagator = λ g. refl;
  try_from_default_env-set_text_map_propagator = λ g. refl;
  subscriber-set_tracer_provider = λ p g. refl;
  tracer_provider-set_tracer_provider = λ p g. refl;
  propagates-set_text_map_propagator = λ g. refl;
  propagates-try_init = λ s g. refl;
  propagates-set_tracer_provider = λ p g. refl;
}

abbrev pub fresh : Process
fresh = record { installed = none; provided = none; propagating = false }
