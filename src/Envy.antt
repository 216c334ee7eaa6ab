-- ===== src/Envy.antt =====
-- The library `envy`, as the `from_env` of each config.rs uses it: it reads the variables with a
-- prefix into the fields of a type. No definition of it is made up: it is a parameter.
use rust_basics.Prelude.{List, String, Result}

-- `envy::prefixed(prefix).from_env()` in an environment.
pub record Envy (T : Type 0) : Type 0 where
  pub prefixed : String → List (String × String) → Result String T
