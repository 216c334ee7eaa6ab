-- ===== src/Resilient/Breaker/Spec.antt =====
-- What the circuit breaker promises, without its cells: a closed circuit is the outcomes of the
-- current window, an open one the time of its opening. The operations of `Breaker` refine it.
use rust_basics.Prelude.{
  ℕ, ◌+◌, ◌-◌, ◌^◌, ◌≤◌, ◌<◌, ◌≡◌, refl, Bool, true, false, List, [], ◌∷◌, All, length, arith, leb,
  if◌then◌else◌,
}
use rust_basics.Resilient.Float.{Float}
use rust_basics.Resilient.Breaker.{
  closed, open_, half_open, Cells, Limits, state_of, trips, allow_request, record_success,
  record_failure,
}

pub data Report : Type 0 where
  good bad : Report

abbrev pub bads : List Report → ℕ
bads [] = 0
bads (good ∷ os) = bads os
bads (bad ∷ os) = bads os + 1

-- The window's start and its reports, newest first; the time of the opening; or a probe is out.
pub data Circuit : Type 0 where
  closed_since : ℕ → List Report → Circuit
  opened_at : ℕ → Circuit
  probing : Circuit

-- A caller asks at a time, or reports at one; a report of a failure reads the clock twice.
pub data Op : Type 0 where
  ask : ℕ → Op
  succeeded : ℕ → Op
  failed : ℕ → ℕ → Op

module _ (fl : Float) (l : Limits (Float.F64 fl)) where
  -- A window that has lasted its time is over: the reports start anew.
  abbrev window : ℕ → List Report → ℕ → ℕ × List Report
  window start os now = if leb l.window_duration_ms (now - start) then (now, []) else (start, os)

  -- A failure in a window opens the circuit if enough of its reports are failures.
  abbrev fail : ℕ × List Report → ℕ → Circuit
  fail (start, os) later =
      if trips fl l (length (bad ∷ os)) (bads (bad ∷ os))
      then opened_at later
      else closed_since start (bad ∷ os)

  abbrev succeed : ℕ × List Report → Circuit
  succeed (start, os) = closed_since start (good ∷ os)

  -- One operation: the circuit after it, and the answer to a caller that asked.
  abbrev pub step : Op → Circuit → Circuit × Bool
  step (ask now) (closed_since start os) = (closed_since start os, true)
  step (ask now) probing = (probing, true)
  step (ask now) (opened_at t) =
      if leb l.half_open_timeout_ms (now - t) then (probing, true) else (opened_at t, false)
  step (succeeded now) (closed_since start os) = (succeed (window start os now), true)
  step (succeeded now) probing = (closed_since now [], true)
  step (succeeded now) (opened_at t) = (opened_at t, true)
  step (failed now later) (closed_since start os) = (fail (window start os now) later, true)
  step (failed now later) probing = (opened_at later, true)
  step (failed now later) (opened_at t) = (opened_at t, true)

  -- The same operation on the cells.
  abbrev pub perform : Op → Cells → Cells × Bool
  perform (ask now) c = allow_request fl l c now
  perform (succeeded now) c = (record_success fl l c now, true)
  perform (failed now later) c = (record_failure fl l c now later, true)

  pub replay : List Op → Circuit → Circuit × List Bool
  replay [] a = (a, [])
  replay (op ∷ ops) a =
      let (a', answer) = step op a in let (a'', answers) = replay ops a' in (a'', answer ∷ answers)

  pub run : List Op → Cells → Cells × List Bool
  run [] c = (c, [])
  run (op ∷ ops) c =
      let (c', answer) = perform op c in let (c'', answers) = run ops c' in (c'', answer ∷ answers)

-- The cells stand for the circuit.
abbrev pub Shows : Cells → Circuit → Type 0
Shows c (closed_since start os) =
    (state_of c ≡ closed)
    × (c.window_start_ms ≡ start)
    × (c.window_requests ≡ length os)
    × (c.window_failures ≡ bads os)
Shows c (opened_at t) = (state_of c ≡ open_) × (c.opened_at_ms ≡ t) × (0 < t)
Shows c probing = state_of c ≡ half_open

abbrev pub size : Circuit → ℕ
size (closed_since start os) = length os
size (opened_at t) = 0
size probing = 0

-- The clock does not read 0, which stands for `never` in `opened_at_ms`.
abbrev pub Timed : Op → Type 0
Timed (ask now) = 0 < now
Timed (succeeded now) = 0 < now
Timed (failed now later) = 0 < later

bads_le : (os : List Report) → bads os ≤ length os
bads_le [] = omega arith
bads_le (good ∷ os) = omega (arith, bads_le os)
bads_le (bad ∷ os) = omega (arith, bads_le os)

module _ (fl : Float) (l : Limits (Float.F64 fl)) where
  step-Shows :
      (op : Op) (c : Cells) (a : Circuit)
      → Timed op
      → size a + 1 < 2 ^ 32
      → Shows c a
      → let (c', answer) = perform fl l op c in
        let (a', expected) = step fl l op a in
        Shows c' a' × (answer ≡ expected) × (size a' ≤ size a + 1)
  unfolding allow_request record_success record_failure
  step-Shows (ask now) c (closed_since start os) t small h =
      (ground arith, ground arith, omega arith)
  step-Shows (ask now) c probing t small h = (ground arith, ground arith, omega arith)
  step-Shows (ask now) c (opened_at t₀) t small h = (ground arith, ground arith, ground arith)
  step-Shows (succeeded now) c (closed_since start os) t small h =
      (ground arith, refl, ground arith)
  step-Shows (succeeded now) c probing t small h = (ground arith, refl, omega arith)
  step-Shows (succeeded now) c (opened_at t₀) t small h = (ground arith, refl, omega arith)
  step-Shows (failed now later) c (closed_since start os) t small h =
      let fewer = bads_le os in (ground arith, refl, ground arith)
  step-Shows (failed now later) c probing t small h = (ground arith, refl, omega arith)
  step-Shows (failed now later) c (opened_at t₀) t small h = (ground arith, refl, omega arith)

  -- Every run of the breaker's operations gives its callers the answers of the abstract circuit, and
  -- ends with cells that stand for it: closed on the reports of the window, open since a time, or
  -- probing. The clock must not read 0, and the reports of a window must fit 32 bits.
  pub run-Shows :
      (ops : List Op) (c : Cells) (a : Circuit)
      → All Timed ops
      → size a + length ops < 2 ^ 32
      → Shows c a
      → ((run fl l ops c).1 ≡ (replay fl l ops a).1)
        × Shows (run fl l ops c).0 (replay fl l ops a).0
  unfolding run replay
  run-Shows [] c a t small h = (refl, h)
  run-Shows (op ∷ ops) c a t small h =
      let (shows, same, grows) = step-Shows op c a t.0 (omega arith) h in
      let (answers, rest) =
        run-Shows ops (perform fl l op c).0 (step fl l op a).0 t.1 (omega arith) shows in
      (λ i. same i ∷ answers i, rest)
