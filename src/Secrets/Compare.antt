-- ===== src/Secrets/Compare.antt =====
-- crates/secrets/src/lib.rs: `constant_time_eq`, over lists of bytes. What it takes in time is not
-- modelled; that it looks at every pair is.
use Prim.Native.Nat.{bit_or, bit_xor, digits, differ, bit_or-bitwise, bit_xor-bitwise}
use rust_basics.Prelude.{
  ℕ, zero, suc, ◌/◌, ◌%◌, ◌≤◌, ◌≡◌, refl, sym, ap, ◌∙◌, ◌↔◌, max, Bool, true, false, List, [], ◌∷◌,
  length, arith, ◌==◌, if◌then◌else◌,
}

-- `for (x, y) in a.iter().zip(b) { diff |= x ^ y }`
fold_diff : ℕ → List ℕ → List ℕ → ℕ
fold_diff diff [] b = diff
fold_diff diff (x ∷ a) [] = diff
fold_diff diff (x ∷ a) (y ∷ b) = fold_diff (bit_or diff (bit_xor x y)) a b

unfoldable pub constant_time_eq : List ℕ → List ℕ → Bool
unfolding fold_diff
constant_time_eq a b = if length a == length b then fold_diff 0 a b == 0 else false

abbrev or_digits : ℕ → ℕ → ℕ → ℕ
or_digits = digits (λ b. b) max

abbrev xor_digits : ℕ → ℕ → ℕ → ℕ
xor_digits = digits (λ b. b) differ

or_digits-zero : (n a b : ℕ) → a ≤ n → or_digits n a b ≡ 0 → (a ≡ 0) × (b ≡ 0)
or_digits-zero zero a b h e = omega arith
or_digits-zero (suc n) zero b h e = omega arith
or_digits-zero (suc n) (suc a) b h e =
    let low = or_digits-zero n (suc a / 2) (b / 2) (omega arith) (omega arith) in omega (arith, low)

differ-zero : (x y : ℕ) → differ x y ≡ 0 → x ≡ y
differ-zero zero y e = omega arith
differ-zero (suc x) zero e = omega arith
differ-zero (suc x) (suc y) e = ap suc (differ-zero x y e)

differ_self : (x : ℕ) → differ x x ≡ 0
differ_self zero = refl
differ_self (suc x) = differ_self x

xor_digits-zero : (n a b : ℕ) → a ≤ n → xor_digits n a b ≡ 0 → a ≡ b
xor_digits-zero zero a b h e = omega arith
xor_digits-zero (suc n) zero b h e = omega arith
xor_digits-zero (suc n) (suc a) b h e =
    let high = xor_digits-zero n (suc a / 2) (b / 2) (omega arith) (omega arith) in
    let low = differ-zero (suc a % 2) (b % 2) (omega arith) in omega (arith, high, low)

xor_digits_self : (n a : ℕ) → a ≤ n → xor_digits n a a ≡ 0
xor_digits_self zero a h = omega arith
xor_digits_self (suc n) zero h = refl
xor_digits_self (suc n) (suc a) h =
    omega (arith, xor_digits_self n (suc a / 2) (omega arith), differ_self (suc a % 2))

bit_or-zero_iff : (a b : ℕ) → (bit_or a b ≡ 0) ↔ ((a ≡ 0) × (b ≡ 0))
bit_or-zero_iff a b =
    (λ e. or_digits-zero a a b (omega arith) (sym (bit_or-bitwise a b) ∙ e), λ z. rw (z.0, z.1))

bit_xor-zero_iff : (a b : ℕ) → (bit_xor a b ≡ 0) ↔ (a ≡ b)
bit_xor-zero_iff a b = (
  λ e. xor_digits-zero a a b (omega arith) (sym (bit_xor-bitwise a b) ∙ e),
  λ e. rw (← e) (bit_xor-bitwise a a ∙ xor_digits_self a a (omega arith)),
)

-- The accumulator stays 0 exactly as long as the bytes agree.
fold_diff-zero_iff :
    (diff : ℕ) (a b : List ℕ)
    → length a ≡ length b
    → (fold_diff diff a b ≡ 0) ↔ ((diff ≡ 0) × (a ≡ b))
unfolding fold_diff
fold_diff-zero_iff diff [] [] h = (λ e. (e, refl), λ e. e.0)
fold_diff-zero_iff diff [] (y ∷ b) h = absurd (omega arith)
fold_diff-zero_iff diff (x ∷ a) [] h = absurd (omega arith)
fold_diff-zero_iff diff (x ∷ a) (y ∷ b) h =
    let ih = fold_diff-zero_iff (bit_or diff (bit_xor x y)) a b (omega arith) in
    let either = bit_or-zero_iff diff (bit_xor x y) in
    let same = bit_xor-zero_iff x y in ground arith

-- The comparison by accumulated differences decides equality.
pub constant_time_eq_iff : (a b : List ℕ) → (constant_time_eq a b ≡ true) ↔ (a ≡ b)
unfolding constant_time_eq
constant_time_eq_iff a b = (there, back)
  where
    there : constant_time_eq a b ≡ true → a ≡ b
    there e =
        let sizes : length a ≡ length b = ground arith in
        let none_differ : fold_diff 0 a b ≡ 0 = ground arith in
        ((fold_diff-zero_iff 0 a b sizes).0 none_differ).1

    back : a ≡ b → constant_time_eq a b ≡ true
    back q =
        let sizes : length a ≡ length b = ap length q in
        let none_differ : fold_diff 0 a b ≡ 0 = (fold_diff-zero_iff 0 a b sizes).1 (refl, q) in
        ground arith
