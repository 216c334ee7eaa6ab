-- ===== src/Otelx.antt =====
-- crates/otelx/src/config.rs: the configuration of tracing, and its defaults. The ratio is a float, of
-- which the model takes the type `F` and the number one.
pub mod Init
mod Tests
use rust_basics.Prelude.{Bool, false, String, List, Result}
use rust_basics.Envy.{Envy}

pub record Config (F : Type 0) : Type 0 where
  pub otel_enabled : Bool
  pub otel_service_name : String
  pub otel_endpoint : String
  pub otel_sampler_ratio : F

unfoldable pub default : {F : Type 0} → F → Config F
default one = record {
  otel_enabled = false;
  otel_service_name = "service";
  otel_endpoint = "http://localhost:4317";
  otel_sampler_ratio = one;
}

-- `Config::from_env`
unfoldable pub from_env :
    {F : Type 0} → Envy (Config F) → String → List (String × String) → Result String (Config F)
from_env envy prefix env = Envy.prefixed envy prefix env
