-- ===== src/Resilient/Breaker/Atomic.antt =====
-- crates/resilient-client/src/circuit_breaker.rs, access by access: every load, store, fetch-and-add
-- and compare-and-exchange of the five atomics is a step of its own, and the steps of several
-- threads interleave. Accesses are taken as sequentially consistent: what the weaker orderings of
-- the program allow beyond that is not modelled.
pub mod Solo
pub mod Interleaving
use rust_basics.Prelude.{ℕ, ◌+◌, ◌-◌, Bool, true, false, leb, ◌==◌, if◌then◌else◌}
use rust_basics.Resilient.Float.{Float}
use rust_basics.Resilient.Breaker.{
  closed, open_, half_open, Cells, Limits, state_of, to_u8, u32, trips, may_probe,
}

pub data Outcome : Type 0 where
  success failure : Outcome

-- The access that a thread makes next, with the locals that it still needs.
pub data Pc : Type 0 where
  idle : Pc
  -- `allow_request`
  asks asks_opened asks_cas : Pc
  answered : Bool → Pc
  -- `record_success` and `record_failure`
  records : Outcome → Pc
  -- `record_success` of a half-open circuit, and its `reset_window`
  closes resets_start resets_requests resets_failures : Pc
  -- `maybe_rotate_window`
  rotates : Outcome → Pc
  rotates_cas : Outcome → ℕ → ℕ → Pc
  clears_requests clears_failures : Outcome → Pc
  -- the counters
  counts : Outcome → Pc
  counts_failure : ℕ → Pc
  -- `open_circuit`
  opens stamps : Pc
  finished : Pc

module _ (fl : Float) (l : Limits (Float.F64 fl)) where
  after_load : Outcome → Cells → Pc
  after_load success c = elim (state_of c) [
    | half_open ↦ closes
    | closed ↦ rotates success
    | open_ ↦ finished
  ]
  after_load failure c = elim (state_of c) [
    | half_open ↦ opens
    | closed ↦ rotates failure
    | open_ ↦ finished
  ]

  -- One access, made at the time `now`.
  unfoldable pub access : ℕ → Pc → Cells → Cells × Pc
  unfolding after_load
  access now idle c = (c, idle)
  access now asks c = (
    c,
    elim (state_of c) [ closed ↦ answered true | half_open ↦ answered true | open_ ↦ asks_opened ],
  )
  access now asks_opened c =
      (c, if may_probe fl l c.opened_at_ms now then asks_cas else answered false)
  access now asks_cas c =
      if c.state == to_u8 open_
      then (record c { state = to_u8 half_open }, answered true)
      else (c, answered false)
  access now (answered b) c = (c, answered b)
  access now (records o) c = (c, after_load o c)
  access now closes c = (record c { state = to_u8 closed }, resets_start)
  access now resets_start c = (record c { window_start_ms = now }, resets_requests)
  access now resets_requests c = (record c { window_requests = 0 }, resets_failures)
  access now resets_failures c = (record c { window_failures = 0 }, finished)
  access now (rotates o) c = (
    c,
    if leb l.window_duration_ms (now - c.window_start_ms)
        then rotates_cas o c.window_start_ms now
        else counts o,
  )
  access now (rotates_cas o start new) c =
      if c.window_start_ms == start
      then (record c { window_start_ms = new }, clears_requests o)
      else (c, counts o)
  access now (clears_requests o) c = (record c { window_requests = 0 }, clears_failures o)
  access now (clears_failures o) c = (record c { window_failures = 0 }, counts o)
  access now (counts success) c =
      (record c { window_requests = u32 (c.window_requests + 1) }, finished)
  access now (counts failure) c = (
    record c { window_requests = u32 (c.window_requests + 1) },
    counts_failure (u32 (c.window_requests + 1)),
  )
  access now (counts_failure requests) c = (
    record c { window_failures = u32 (c.window_failures + 1) },
    if trips fl l requests (u32 (c.window_failures + 1)) then opens else finished,
  )
  access now opens c = (record c { state = to_u8 open_ }, stamps)
  access now stamps c = (record c { opened_at_ms = now }, finished)
  access now finished c = (c, finished)
