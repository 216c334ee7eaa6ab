-- ===== src/Resilient/Breaker/Atomic/Solo.antt =====
-- A thread that is not interfered with computes what the operations of `Breaker` compute.
use rust_basics.Prelude.{ℕ, zero, suc, ◌≡◌, arith}
use rust_basics.Resilient.Float.{Float}
use rust_basics.Resilient.Breaker.{Cells, Limits, allow_request, record_success, record_failure}
use rust_basics.Resilient.Breaker.Atomic.{
  Pc, asks, answered, records, finished, success, failure, access,
}

module _ (fl : Float) (l : Limits (Float.F64 fl)) where
  -- So many accesses of one thread, at a time that stands still.
  solo : ℕ → ℕ → Pc → Cells → Cells × Pc
  solo zero now pc c = (c, pc)
  solo (suc n) now pc c = let (c', pc') = access fl l now pc c in solo n now pc' c'

  -- Run alone at one time, the accesses of each of the three operations end within nine steps, and
  -- leave the cells, and for `allow_request` the answer, that the operation computes.
  solo-eq :
      (c : Cells) (now : ℕ)
      → (solo 9 now asks c ≡ ((allow_request fl l c now).0, answered (allow_request fl l c now).1))
        × (solo 9 now (records success) c ≡ (record_success fl l c now, finished))
        × (solo 9 now (records failure) c ≡ (record_failure fl l c now now, finished))
  unfolding solo access allow_request record_success record_failure
  solo-eq c now = (ground arith, ground arith, ground arith)
