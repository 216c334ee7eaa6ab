-- ===== src/Prelude/Lists.antt =====
-- Lists measured by native numbers, predicates on lists, and maps as association lists.
use Prim.Native.Nat.{ℕ, zero, suc, ◌+◌, min}
use Prim.Native.String.{String}
use mathlib.Core.Path.{◌≡◌, refl}
use mathlib.Core.List.{List, [], ◌∷◌, ◌++◌}
use mathlib.Core.Option.{Option, none, some}
use native.Mathlib.Omega.{arith}
use text.Mathlib.Text.{◌==◌}
use text.Mathlib.TextEquality.{eq_iff}
use rust_basics.Prelude.Tests.{if◌then◌else◌}

module _ {ℓ} {A : Type ℓ} where
  abbrev pub length : List A → ℕ
  length [] = 0
  length (x ∷ xs) = suc (length xs)

  pub length-append : (xs ys : List A) → length (xs ++ ys) ≡ length xs + length ys
  length-append [] ys = omega arith
  length-append (x ∷ xs) ys = omega (arith, length-append xs ys)

module _ {ℓ} {A : Type ℓ} where
  abbrev pub take : ℕ → List A → List A
  take zero xs = []
  take (suc n) [] = []
  take (suc n) (x ∷ xs) = x ∷ take n xs

  abbrev pub drop : ℕ → List A → List A
  drop zero xs = xs
  drop (suc n) [] = []
  drop (suc n) (x ∷ xs) = drop n xs

  pub length-take : (n : ℕ) (xs : List A) → length (take n xs) ≡ min n (length xs)
  length-take zero xs = omega arith
  length-take (suc n) [] = omega arith
  length-take (suc n) (x ∷ xs) = omega (arith, length-take n xs)

  pub take-append : (n : ℕ) (xs ys : List A) → length xs ≡ n → take n (xs ++ ys) ≡ xs
  take-append zero [] ys e = refl
  take-append zero (x ∷ xs) ys e = absurd (omega arith)
  take-append (suc n) [] ys e = absurd (omega arith)
  take-append (suc n) (x ∷ xs) ys e = rw (take-append n xs ys (omega arith))

  pub drop-append : (n : ℕ) (xs ys : List A) → length xs ≡ n → drop n (xs ++ ys) ≡ ys
  drop-append zero [] ys e = refl
  drop-append zero (x ∷ xs) ys e = absurd (omega arith)
  drop-append (suc n) [] ys e = absurd (omega arith)
  drop-append (suc n) (x ∷ xs) ys e = drop-append n xs ys (omega arith)

-- A predicate that holds of every element.
abbrev pub All {ℓ κ} : {A : Type ℓ} → (A → Type κ) → List A → Type κ
All P [] = Unit
All P (x ∷ xs) = P x × All P xs

-- `HashMap` and `BTreeMap` with texts for keys.
module _ {ℓ} {V : Type ℓ} where
  unfoldable pub lookup : String → List (String × V) → Option V
  lookup wanted [] = none
  lookup wanted ((name, value) ∷ entries) =
      let further = lookup wanted entries in if name == wanted then some value else further

  -- The entry of the name is replaced where it stands, or a new one is added behind the others.
  unfoldable pub insert : String → V → List (String × V) → List (String × V)
  insert name value [] = (name, value) ∷ []
  insert name value ((other, old) ∷ entries) =
      let further = insert name value entries in
      if other == name then (name, value) ∷ entries else (other, old) ∷ further

  -- After an insertion, the name has the new value and every other name has what it had.
  pub lookup-insert :
      (name wanted : String) (value : V) (entries : List (String × V))
      → lookup wanted (insert name value entries)
        ≡ (if name == wanted then some value else lookup wanted entries)
  unfolding lookup insert
  lookup-insert name wanted value [] = refl
  lookup-insert name wanted value ((other, old) ∷ entries) =
      let further = lookup-insert name wanted value entries in
      let same = eq_iff name wanted in
      let at_name = eq_iff other name in let at_wanted = eq_iff other wanted in ground arith
