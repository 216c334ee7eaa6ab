-- ===== src/Resilient/Breaker/Valid.antt =====
-- What holds of the circuit breaker's cells between two calls.
use rust_basics.Prelude.{ℕ, ◌+◌, ◌^◌, ◌≤◌, ◌<◌, arith}
use rust_basics.Resilient.Float.{Float}
use rust_basics.Resilient.Breaker.{
  Cells, Limits, new_cells, allow_request, record_success, record_failure,
}

pub record IsValid (c : Cells) : Type 0 where
  pub known : c.state ≤ 2
  pub counted : c.window_failures ≤ c.window_requests

new_cells-IsValid : (now : ℕ) → IsValid (new_cells now)
unfolding new_cells
new_cells-IsValid now = ground arith

module _ (fl : Float) (l : Limits (Float.F64 fl)) (c : Cells) where
  allow_request-IsValid : (now : ℕ) → IsValid c → IsValid (allow_request fl l c now).0
  unfolding allow_request
  allow_request-IsValid now v = ground arith

  record_success-IsValid :
      (now : ℕ) → c.window_requests + 1 < 2 ^ 32 → IsValid c → IsValid (record_success fl l c now)
  unfolding record_success
  record_success-IsValid now small v = ground arith

  record_failure-IsValid :
      (now later : ℕ)
      → c.window_requests + 1 < 2 ^ 32
      → IsValid c
      → IsValid (record_failure fl l c now later)
  unfolding record_failure
  record_failure-IsValid now later small v = ground arith
