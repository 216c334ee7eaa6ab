-- ===== src/Resilient/Backoff.antt =====
-- crates/resilient-client/src/backoff.rs: full-jitter exponential backoff.
use rust_basics.Prelude.{
  ℕ, ◌-◌, ◌*◌, ◌^◌, ◌≤◌, ◌<◌, ◌≡◌, ◌||◌, arith, ltb, ◌==◌, if◌then◌else◌, lt→ltb,
}
use rust_basics.Resilient.Float.{Float, IsExact}

module _ (fl : Float) where
  open fl use {F64, of_int, mul, minimum, powi2, powi2_neg, to_u64}

  -- `2f64.powi(attempt as i32)`: the cast makes a large `u32` negative.
  power : ℕ → F64
  power attempt = if ltb attempt (2 ^ 31) then powi2 attempt else powi2_neg (2 ^ 32 - attempt)

  unfoldable pub ceiling : ℕ → ℕ → ℕ → ℕ
  unfolding power
  ceiling attempt base_ms cap_ms =
      to_u64 (minimum (mul (of_int base_ms) (power attempt)) (of_int cap_ms))

  -- The delay in milliseconds; `random c` is the random number from 0 to c.
  unfoldable pub full_jitter : (ℕ → ℕ) → ℕ → ℕ → ℕ → ℕ
  full_jitter random attempt base_ms cap_ms =
      if attempt == 0 || cap_ms == 0 then 0 else random (ceiling attempt base_ms cap_ms)

  module _ (exact : IsExact fl) (random : ℕ → ℕ) (in_range : (c : ℕ) → random c ≤ c) where
    ceiling-le-cap :
        (attempt base_ms cap_ms : ℕ) → cap_ms ≤ 2 ^ 53 → ceiling attempt base_ms cap_ms ≤ cap_ms
    unfolding ceiling
    ceiling-le-cap attempt base_ms cap_ms c = omega (
      arith,
      exact.to_u64-of_int cap_ms c,
      exact.to_u64-minimum_right (mul (of_int base_ms) (power attempt)) (of_int cap_ms)
          (exact.of_int_number cap_ms),
    )

    ceiling-le-scaled :
        (attempt base_ms cap_ms : ℕ)
        → 0 < base_ms
        → base_ms ≤ 2 ^ 53
        → attempt < 2 ^ 31
        → ceiling attempt base_ms cap_ms ≤ base_ms * 2 ^ attempt
    unfolding ceiling
    ceiling-le-scaled attempt base_ms cap_ms b0 b a =
        rw (lt→ltb attempt (2 ^ 31) a, ceiling)
          (omega (
            arith,
            exact.to_u64-scaled base_ms attempt b,
            exact.to_u64-minimum_left (mul (of_int base_ms) (powi2 attempt)) (of_int cap_ms)
                (exact.scaled_number base_ms attempt b0),
          ))

    -- The delay is within the cap, and within base * 2^attempt; it is 0 for the first try and for
    -- a cap of 0. The cap and the base are numbers that `f64` represents exactly, the base is
    -- above 0, and the attempt fits an `i32`.
    pub full_jitter_bounds :
        (attempt base_ms cap_ms : ℕ)
        → cap_ms ≤ 2 ^ 53
        → 0 < base_ms
        → base_ms ≤ 2 ^ 53
        → attempt < 2 ^ 31
        → (full_jitter random attempt base_ms cap_ms ≤ cap_ms)
          × (full_jitter random attempt base_ms cap_ms ≤ base_ms * 2 ^ attempt)
          × (full_jitter random 0 base_ms cap_ms ≡ 0)
          × (full_jitter random attempt base_ms 0 ≡ 0)
    unfolding full_jitter
    full_jitter_bounds attempt base_ms cap_ms c b0 b a =
        let drawn = in_range (ceiling attempt base_ms cap_ms) in
        let capped = ceiling-le-cap attempt base_ms cap_ms c in
        let scaled = ceiling-le-scaled attempt base_ms cap_ms b0 b a in
        (ground arith, ground arith, ground arith, ground arith)

    -- However large the attempt is, the delay is within a cap that `f64` represents exactly.
    pub full_jitter-le-cap :
        (attempt base_ms cap_ms : ℕ)
        → cap_ms ≤ 2 ^ 53
        → full_jitter random attempt base_ms cap_ms ≤ cap_ms
    unfolding full_jitter
    full_jitter-le-cap attempt base_ms cap_ms c =
        let drawn = in_range (ceiling attempt base_ms cap_ms) in
        let capped = ceiling-le-cap attempt base_ms cap_ms c in ground arith
