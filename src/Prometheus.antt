-- ===== src/Prometheus.antt =====
-- The metrics library `prometheus`, as crates/httpx/src/metrics.rs and
-- crates/resilient-client/src/metrics.rs use it. A vector of metrics is a handle, which its clones
-- share, to values that the library keeps; here they are passed on as a state. No definition of the
-- library is made up: it is a parameter, with its documented behaviour.
pub mod Sample
use rust_basics.Prelude.{
  ℕ, ◌+◌, ◌^◌, ◌<◌, ◌≡◌, ◌≢◌, Bool, true, false, ◌&&◌, List, [], ◌∷◌, String, str_eq, Result, ok,
  if◌then◌else◌,
}

-- `Opts` and `HistogramOpts`: a name and a help text.
pub record Opts : Type 0 where
  pub name : String
  pub help : String

-- The kinds of vector: `IntCounterVec` or `CounterVec`, `GaugeVec`, `HistogramVec`.
pub data Kind : Type 0 where
  counter gauge histogram : Kind

pub record Prometheus : Type 1 where
  pub S : Type 0
  pub Vector : Kind → Type 0
  pub Registry : Type 0
  pub F64 : Type 0
  pub of_u8 : ℕ → F64
  pub new_vector : (k : Kind) → Opts → List String → S → S × Result String (Vector k)
  pub new_registry : S → S × Registry
  pub register : {k : Kind} → Registry → Vector k → S → S × Result String (Unit {0})
  pub register_process : Registry → S → S
  pub inc : Vector counter → List String → S → S
  pub set : Vector gauge → List String → F64 → S → S
  pub observe : Vector histogram → List String → F64 → S → S
  pub gather : Registry → S → Result String (List ℕ)
  pub from_utf8 : List ℕ → Result String String

-- The same label values, one by one.
abbrev pub same_labels : List String → List String → Bool
same_labels [] [] = true
same_labels [] (y ∷ ys) = false
same_labels (x ∷ xs) [] = false
same_labels (x ∷ xs) (y ∷ ys) = str_eq x y && same_labels xs ys

-- What the library documents: a vector has the name of its options; it keeps a number for each list
-- of label values, `inc` adds one to that of its labels (exactly, below 2 ^ 53), `set` replaces it,
-- `observe` counts one more observation; and vectors of other names keep their numbers.
module _ (lib : Prometheus) where
  open lib use {S, Vector, F64, new_vector, inc, set, observe}

  pub record IsPrometheus : Type 0 where
    pub name : {k : Kind} → Vector k → String
    pub total : Vector counter → List String → S → ℕ
    pub level : Vector gauge → List String → S → F64
    pub observations : Vector histogram → List String → S → ℕ
    pub new_vector-name :
        (k : Kind) (opts : Opts) (labels : List String) (s : S) (v : Vector k)
        → (new_vector k opts labels s).1 ≡ ok v
        → name v ≡ opts.name
    pub total-inc :
        (v : Vector counter) (ls ms : List String) (s : S)
        → total v ms s < 2 ^ 53
        → total v ms (inc v ls s) ≡ (if same_labels ls ms then total v ms s + 1 else total v ms s)
    pub total-inc_other :
        (v w : Vector counter) (ls ms : List String) (s : S)
        → name v ≢ name w
        → total w ms (inc v ls s) ≡ total w ms s
    pub total-set :
        (v : Vector gauge) (w : Vector counter) (ls ms : List String) (x : F64) (s : S)
        → total w ms (set v ls x s) ≡ total w ms s
    pub total-observe :
        (v : Vector histogram) (w : Vector counter) (ls ms : List String) (x : F64) (s : S)
        → total w ms (observe v ls x s) ≡ total w ms s
    pub level-set :
        (v : Vector gauge) (ls ms : List String) (x : F64) (s : S)
        → level v ms (set v ls x s) ≡ (if same_labels ls ms then x else level v ms s)
    pub level-inc :
        (v : Vector counter) (w : Vector gauge) (ls ms : List String) (s : S)
        → level w ms (inc v ls s) ≡ level w ms s
    pub level-observe :
        (v : Vector histogram) (w : Vector gauge) (ls ms : List String) (x : F64) (s : S)
        → level w ms (observe v ls x s) ≡ level w ms s
    pub observations-observe :
        (v : Vector histogram) (ls ms : List String) (x : F64) (s : S)
        → observations v ms s < 2 ^ 53
        → observations v ms (observe v ls x s)
          ≡ (if same_labels ls ms then observations v ms s + 1 else observations v ms s)
    pub observations-inc :
        (v : Vector counter) (w : Vector histogram) (ls ms : List String) (s : S)
        → observations w ms (inc v ls s) ≡ observations w ms s
