-- ===== src/Resilient/Metrics/Series.antt =====
-- What the client's metrics show after a request.
use rust_basics.Prelude.{
  ℕ, ◌+◌, ◌^◌, ◌<◌, ◌≤◌, ◌≡◌, ◌≢◌, refl, ◌∙◌, Option, none, some, List, [], ◌∷◌, String, str_eq,
  length, arith, if◌then◌else◌, Bool-cases, inl, inr,
}
use rust_basics.Prometheus.{Prometheus, same_labels, IsPrometheus}
use rust_basics.Resilient.Breaker.{CbState, to_u8}
use rust_basics.Resilient.Request.{Effect, counted, timed, cb_state, retried, slept}
use rust_basics.Resilient.Metrics.{Metrics, play, play_all}

-- How many requests of the log are counted under the labels.
abbrev pub matching : List String → List Effect → ℕ
matching ls [] = 0
matching ls (counted target method status error_type ∷ older) =
    (if same_labels (target ∷ method ∷ status ∷ error_type ∷ []) ls then 1 else 0)
    + matching ls older
matching ls (timed target method ∷ older) = matching ls older
matching ls (cb_state target state ∷ older) = matching ls older
matching ls (retried target ∷ older) = matching ls older
matching ls (slept ms ∷ older) = matching ls older

-- The state that the log last gave a target.
abbrev pub last_state : String → List Effect → Option CbState
last_state t [] = none
last_state t (counted target method status error_type ∷ older) = last_state t older
last_state t (timed target method ∷ older) = last_state t older
last_state t (cb_state target state ∷ older) =
    let before = last_state t older in if str_eq target t then some state else before
last_state t (retried target ∷ older) = last_state t older
last_state t (slept ms ∷ older) = last_state t older

module _ (lib : Prometheus) (law : IsPrometheus lib) (m : Metrics lib)
    (elapsed : Prometheus.F64 lib) where
  open lib use {S, F64, of_u8}
  open law use {
    name, total, level, total-inc, total-inc_other, total-set, total-observe, level-set, level-inc,
    level-observe,
  }

  -- The gauge of a target after a log.
  abbrev pub shown : F64 → Option CbState → F64
  shown before none = before
  shown before (some state) = of_u8 (to_u8 state)

  pub level-play_all :
      (t : String) (log : List Effect) (s : S)
      → level m.state_gauge (t ∷ []) (play_all lib m elapsed log s)
        ≡ shown (level m.state_gauge (t ∷ []) s) (last_state t log)
  unfolding play_all play
  level-play_all t [] s = refl
  level-play_all t (counted target method status error_type ∷ older) s =
      level-inc m.requests_total m.state_gauge _ _ _ ∙ level-play_all t older s
  level-play_all t (timed target method ∷ older) s =
      level-observe m.request_duration m.state_gauge _ _ _ _ ∙ level-play_all t older s
  level-play_all t (cb_state target state ∷ older) s =
      let ih = level-play_all t older s in
      let at =
        level-set m.state_gauge (target ∷ []) (t ∷ []) (of_u8 (to_u8 state))
          (play_all lib m elapsed older s) in
      elim (Bool-cases (str_eq target t)) [ inl e ↦ ground arith | inr e ↦ ground arith ]
  level-play_all t (retried target ∷ older) s =
      level-inc m.retry_attempts m.state_gauge _ _ _ ∙ level-play_all t older s
  level-play_all t (slept ms ∷ older) s = level-play_all t older s

  pub total-play_all :
      (ls : List String) (log : List Effect) (s : S)
      → name m.retry_attempts ≢ name m.requests_total
      → total m.requests_total ls s + length log < 2 ^ 53
      → (total m.requests_total ls (play_all lib m elapsed log s)
          ≡ total m.requests_total ls s + matching ls log)
        × (matching ls log ≤ length log)
  unfolding play_all play
  total-play_all ls [] s apart few = (omega arith, omega arith)
  total-play_all ls (counted target method status error_type ∷ older) s apart few =
      let (ih, le) = total-play_all ls older s apart (omega (arith, few)) in
      let at =
        total-inc m.requests_total (target ∷ method ∷ status ∷ error_type ∷ []) ls
          (play_all lib m elapsed older s) (omega (arith, few, ih, le)) in
      (ground arith, ground arith)
  total-play_all ls (timed target method ∷ older) s apart few =
      let (ih, le) = total-play_all ls older s apart (omega (arith, few)) in
      (total-observe m.request_duration m.requests_total _ _ _ _ ∙ ih, omega (arith, le))
  total-play_all ls (cb_state target state ∷ older) s apart few =
      let (ih, le) = total-play_all ls older s apart (omega (arith, few)) in
      (total-set m.state_gauge m.requests_total _ _ _ _ ∙ ih, omega (arith, le))
  total-play_all ls (retried target ∷ older) s apart few =
      let (ih, le) = total-play_all ls older s apart (omega (arith, few)) in
      (total-inc_other m.retry_attempts m.requests_total _ _ _ apart ∙ ih, omega (arith, le))
  total-play_all ls (slept ms ∷ older) s apart few =
      let (ih, le) = total-play_all ls older s apart (omega (arith, few)) in (ih, omega (arith, le))
