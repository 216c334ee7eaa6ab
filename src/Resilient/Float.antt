-- ===== src/Resilient/Float.antt =====
-- The 64-bit floats (`f64`) that circuit_breaker.rs and backoff.rs compute with. The machine's
-- float arithmetic is no code of the repository: it is a parameter of the model.
use rust_basics.Prelude.{ℕ, ◌-◌, ◌*◌, ◌≤◌, ◌<◌, ◌^◌, ◌≡◌, Bool, false, min}

-- `powi2 n` is `2f64.powi(n)` and `powi2_neg n` is `2f64.powi(-n)`; `to_u64` is `as u64`;
-- `fraction m n` is the literal m / n.
pub record Float : Type 1 where
  pub F64 : Type 0
  pub of_int : ℕ → F64
  pub fraction : ℕ → ℕ → F64
  pub div : F64 → F64 → F64
  pub mul : F64 → F64 → F64
  pub minimum : F64 → F64 → F64
  pub powi2 : ℕ → F64
  pub powi2_neg : ℕ → F64
  pub to_u64 : F64 → ℕ
  pub geb : F64 → F64 → Bool
  pub is_nan : F64 → Bool

-- Documented behaviour of `f64`: integers up to 2^53 are exact, so are their products with powers
-- of two, casts saturate, and of two numbers the minimum casts to no larger integer than either.
pub record IsExact (fl : Float) : Type 0 where
  pub of_int_number : (n : ℕ) → Float.is_nan fl (Float.of_int fl n) ≡ false
  pub to_u64-of_int : (n : ℕ) → n ≤ 2 ^ 53 → Float.to_u64 fl (Float.of_int fl n) ≡ n
  pub scaled_number :
      (b n : ℕ)
      → 0 < b
      → Float.is_nan fl (Float.mul fl (Float.of_int fl b) (Float.powi2 fl n)) ≡ false
  pub to_u64-scaled :
      (b n : ℕ)
      → b ≤ 2 ^ 53
      → Float.to_u64 fl (Float.mul fl (Float.of_int fl b) (Float.powi2 fl n))
        ≡ min (b * 2 ^ n) (2 ^ 64 - 1)
  pub to_u64-minimum_left :
      (x y : Float.F64 fl)
      → Float.is_nan fl x ≡ false
      → Float.to_u64 fl (Float.minimum fl x y) ≤ Float.to_u64 fl x
  pub to_u64-minimum_right :
      (x y : Float.F64 fl)
      → Float.is_nan fl y ≡ false
      → Float.to_u64 fl (Float.minimum fl x y) ≤ Float.to_u64 fl y
