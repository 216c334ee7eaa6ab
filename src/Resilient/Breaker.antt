-- ===== src/Resilient/Breaker.antt =====
-- crates/resilient-client/src/circuit_breaker.rs: the operations of the circuit breaker, each run
-- without interference. `Breaker/Atomic` has the same operations access by access.
-- Each reading of the clock (`now_ms`) is an argument.
pub mod Valid
pub mod Cycle
pub mod Window
pub mod Atomic
pub mod Spec
use rust_basics.Prelude.{
  ℕ, ◌+◌, ◌-◌, ◌%◌, ◌^◌, Bool, true, false, ◌&&◌, ltb, leb, ◌==◌, if◌then◌else◌,
}
use rust_basics.Resilient.Float.{Float}

pub data CbState : Type 0 where
  closed open_ half_open : CbState

abbrev pub u32 : ℕ → ℕ
u32 n = n % 2 ^ 32

abbrev pub u64 : ℕ → ℕ
u64 n = n % 2 ^ 64

-- `CbState as u8`
abbrev pub to_u8 : CbState → ℕ
to_u8 closed = 0
to_u8 open_ = 1
to_u8 half_open = 2

-- `CbState::from(u8)`
abbrev pub from_u8 : ℕ → CbState
from_u8 v = if v == 0 then closed else if v == 1 then open_ else half_open

-- The five atomics.
pub record Cells : Type 0 where
  pub state : ℕ  -- u8
  pub window_requests : ℕ  -- u32
  pub window_failures : ℕ  -- u32
  pub window_start_ms : ℕ  -- u64
  pub opened_at_ms : ℕ  -- u64

-- The fields that are never written again.
pub record Limits (F : Type 0) : Type 0 where
  pub failure_threshold : F
  pub min_requests : ℕ
  pub window_duration_ms : ℕ
  pub half_open_timeout_ms : ℕ

-- `CircuitBreaker::new`, its durations in milliseconds.
unfoldable pub new_cells : ℕ → Cells
new_cells now = record {
  state = to_u8 closed;
  window_requests = 0;
  window_failures = 0;
  window_start_ms = now;
  opened_at_ms = 0;
}

unfoldable pub new_limits : {F : Type 0} → F → ℕ → ℕ → ℕ → Limits F
new_limits threshold min_requests window timeout = record {
  failure_threshold = threshold;
  min_requests = min_requests;
  window_duration_ms = u64 window;
  half_open_timeout_ms = u64 timeout;
}

abbrev pub state_of : Cells → CbState
state_of c = from_u8 c.state

module _ (fl : Float) where
  open fl use {F64, of_int, div, geb}

  -- `ratio >= failure_threshold`, once there are enough requests.
  unfoldable pub trips : Limits F64 → ℕ → ℕ → Bool
  trips l requests failures =
      leb l.min_requests requests
      && geb (div (of_int failures) (of_int requests)) l.failure_threshold

  -- The elapsed time that `saturating_sub` gives has reached the timeout.
  unfoldable pub may_probe : Limits F64 → ℕ → ℕ → Bool
  may_probe l opened_at now = ltb 0 opened_at && leb l.half_open_timeout_ms (now - opened_at)

  unfoldable pub allow_request : Limits F64 → Cells → ℕ → Cells × Bool
  unfolding may_probe
  allow_request l c now = elim (state_of c) [
    | closed ↦ (c, true)
    | half_open ↦ (c, true)
    | open_ ↦
        if may_probe l c.opened_at_ms now
        then if c.state == to_u8 open_
          then (record c { state = to_u8 half_open }, true)
          else (c, false)
        else (c, false)
  ]

  unfoldable pub open_circuit : Cells → ℕ → Cells
  open_circuit c now = record c { state = to_u8 open_; opened_at_ms = now }

  unfoldable pub reset_window : Cells → ℕ → Cells
  reset_window c now = record c { window_start_ms = now; window_requests = 0; window_failures = 0 }

  -- Alone, the compare-and-exchange on `window_start_ms` finds the value just loaded.
  unfoldable pub maybe_rotate_window : Limits F64 → Cells → ℕ → Cells
  maybe_rotate_window l c now =
      if leb l.window_duration_ms (now - c.window_start_ms)
      then record c { window_start_ms = now; window_requests = 0; window_failures = 0 }
      else c

  unfoldable pub record_success : Limits F64 → Cells → ℕ → Cells
  unfolding reset_window maybe_rotate_window
  record_success l c now = elim (state_of c) [
    | half_open ↦ reset_window (record c { state = to_u8 closed }) now
    | closed ↦
        let r = maybe_rotate_window l c now in
        record r { window_requests = u32 (r.window_requests + 1) }
    | open_ ↦ c
  ]

  -- `now` is read for the window, `later` when the circuit opens.
  unfoldable pub record_failure : Limits F64 → Cells → ℕ → ℕ → Cells
  unfolding maybe_rotate_window open_circuit trips
  record_failure l c now later = elim (state_of c) [
    | half_open ↦ open_circuit c later
    | closed ↦
        let r = maybe_rotate_window l c now in
        let requests = u32 (r.window_requests + 1) in
        let failures = u32 (r.window_failures + 1) in
        let counted = record r { window_requests = requests; window_failures = failures } in
        if trips l requests failures then open_circuit counted later else counted
    | open_ ↦ c
  ]
