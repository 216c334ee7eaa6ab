-- ===== src/Httpx/Config.antt =====
-- crates/httpx/src/config.rs: the server's configuration, and `load_yaml`, which lays environment
-- variables over a file. The YAML parser, the decoding into a type, the file and the environment are
-- parameters, and so is Unicode lower-casing; a mapping is an association list.
use Prim.Native.Char.{code}
use rust_basics.Prelude.{
  ℕ, ◌*◌, ◌≡◌, refl, sym, ◌∙◌, Option-cases, inl, inr, Bool, false, Option, none, some, List, [],
  ◌∷◌, String, str_eq, Result, ok, err, ◌>>=◌, lookup, insert, lookup-insert, arith, ◌==◌,
  if◌then◌else◌,
}
use rust_basics.Envy.{Envy}

pub record Config : Type 0 where
  pub addr : String
  pub shutdown_timeout_secs : ℕ
  pub log_level : String
  pub log_format : String

-- The values of the `serde` defaults.
unfoldable pub default : Config
default = record {
  addr = "0.0.0.0:8080";
  shutdown_timeout_secs = 10;
  log_level = "info";
  log_format = "json";
}

-- `Config::from_env`
unfoldable pub from_env : Envy Config → String → List (String × String) → Result String Config
from_env envy prefix env = Envy.prefixed envy prefix env

-- `shutdown_timeout`, in milliseconds.
unfoldable pub shutdown_timeout : Config → ℕ
shutdown_timeout c = c.shutdown_timeout_secs * 1000

-- `str::strip_prefix`
unfoldable pub strip_prefix : String → String → Option String
strip_prefix String.[] s = some s
strip_prefix (String.◌∷◌ c p) String.[] = none
strip_prefix (String.◌∷◌ c p) (String.◌∷◌ d s) =
    let rest = strip_prefix p s in if code c == code d then rest else none

-- A YAML document: a mapping from texts, a text, or anything else.
pub data Yaml (V : Type 0) : Type 0 where
  mapping : List (String × V) → Yaml V
  not_mapping : Yaml V

pub data LoadError : Type 0 where
  unreadable malformed not_a_mapping mistyped : LoadError

-- What `load_yaml` takes from outside: reading and parsing the file, parsing an environment value as
-- a scalar, a plain text as a value, lower-casing, and decoding the merged mapping.
pub record Source (T : Type 0) : Type 1 where
  pub V : Type 0
  pub exists_ : String → Bool
  pub read_to_string : String → Result LoadError String
  pub parse : String → Result LoadError (Yaml V)
  pub scalar : String → Option V
  pub plain : String → V
  pub to_lowercase : String → String
  pub from_value : List (String × V) → Result LoadError T

module _ {T : Type 0} (source : Source T) where
  open source use {V, exists_, read_to_string, parse, scalar, plain, to_lowercase, from_value}

  -- The root before the environment is laid over it.
  read_root : Option String → Result LoadError (Yaml V)
  read_root none = ok (mapping [])
  read_root (some p) =
      if exists_ p then (read_to_string p >>= λ contents. parse contents) else ok (mapping [])

  as_mapping : Yaml V → Result LoadError (List (String × V))
  as_mapping (mapping m) = ok m
  as_mapping not_mapping = err not_a_mapping

  -- An environment string as a value: a scalar, or else a plain text.
  unfoldable pub value_of : String → V
  value_of val = elim (scalar val) [ none ↦ plain val | some v ↦ v ]

  -- One variable, laid over the mapping if it has the prefix.
  laid : String → String → String → List (String × V) → List (String × V)
  laid prefix key val map = elim (strip_prefix prefix key) [
    | none ↦ map
    | some rest ↦ insert (to_lowercase rest) (value_of val) map
  ]

  -- The loop over the environment.
  unfoldable pub overlay : String → List (String × String) → List (String × V) → List (String × V)
  unfolding laid
  overlay prefix [] map = map
  overlay prefix ((key, val) ∷ env) map = overlay prefix env (laid prefix key val map)

  unfoldable pub load_yaml : Option String → String → List (String × String) → Result LoadError T
  unfolding read_root as_mapping
  load_yaml path prefix env = do
    root ← read_root path
    map ← as_mapping root
    from_value (overlay prefix env map)

  -- What one variable gives a key.
  abbrev pub given : String → String → String → String → Option V
  given prefix key val k = elim (strip_prefix prefix key) [
    | none ↦ none
    | some rest ↦ if str_eq (to_lowercase rest) k then some (value_of val) else none
  ]

  abbrev pub over : Option V → Option V → Option V
  over (some v) below = some v
  over none below = below

  -- The value that the environment gives a key: that of the last variable that the prefix and the
  -- lower-casing turn into it.
  abbrev pub env_value : String → List (String × String) → String → Option V
  env_value prefix [] k = none
  env_value prefix ((key, val) ∷ env) k = over (env_value prefix env k) (given prefix key val k)

  over_assoc : (a b c : Option V) → over (over a b) c ≡ over a (over b c)
  over_assoc none b c = refl
  over_assoc (some v) b c = refl

  lookup-given :
      (prefix key val k : String) (map : List (String × V))
      → lookup k (laid prefix key val map) ≡ over (given prefix key val k) (lookup k map)
  unfolding laid
  lookup-given prefix key val k map = elim (Option-cases (strip_prefix prefix key)) [
    | inl e ↦ ground arith
    | inr (rest, e) ↦ ground (arith, lookup-insert (to_lowercase rest) k (value_of val) map)
  ]

  -- A variable of the environment wins over the file: under each key the merged mapping has the
  -- environment's value if there is one, and the file's otherwise.
  pub lookup-overlay :
      (prefix : String) (env : List (String × String)) (map : List (String × V)) (k : String)
      → lookup k (overlay prefix env map) ≡ over (env_value prefix env k) (lookup k map)
  unfolding overlay
  lookup-overlay prefix [] map k = refl
  lookup-overlay prefix ((key, val) ∷ env) map k =
      lookup-overlay prefix env (laid prefix key val map) k
      ∙ rw (lookup-given prefix key val k map)
          (sym (over_assoc (env_value prefix env k) (given prefix key val k) (lookup k map)))

  -- A missing file is no error: `load_yaml` decodes what the environment alone gives.
  load_yaml_missing :
      (path prefix : String) (env : List (String × String))
      → exists_ path ≡ false
      → (load_yaml (some path) prefix env ≡ from_value (overlay prefix env []))
        × (load_yaml (some path) prefix env ≡ load_yaml none prefix env)
  unfolding load_yaml
  load_yaml_missing path prefix env missing = (ground arith, ground arith)
