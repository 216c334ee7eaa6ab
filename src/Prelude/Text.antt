-- ===== src/Prelude/Text.antt =====
-- Texts as `format!` and `to_string` build them.
use Prim.Native.Nat.{ℕ, zero, suc, ◌+◌, ◌/◌, ◌%◌}
use Prim.Native.String
use Prim.Native.String.{String}
use mathlib.Core.List.{List, [], ◌∷◌}
use mathlib.Core.Path.{◌≡◌, refl, sym, ◌∙◌}
use mathlib.Core.Logic.{◌≢◌, inl, inr}
use mathlib.Core.Bool.{true, false, false≢true}
use text.Mathlib.Text.{◌==◌ as str_eq}
use text.Mathlib.TextEquality.{eq_iff}
use rust_basics.Prelude.Tests.{ltb, if◌then◌else◌, Bool-cases}

-- `format!`: the pieces one after the other.
abbrev pub format : List String → String
format [] = ""
format (s ∷ rest) = String.◌++◌ s (format rest)

-- The text at a place of a list.
pick : List String → ℕ → String
pick [] n = ""
pick (name ∷ rest) zero = name
pick (name ∷ rest) (suc n) = pick rest n

digit : ℕ → String
unfolding pick
digit = pick ("0" ∷ "1" ∷ "2" ∷ "3" ∷ "4" ∷ "5" ∷ "6" ∷ "7" ∷ "8" ∷ "9" ∷ [])

digits_of : ℕ → ℕ → String
unfolding digit
digits_of zero n = ""
digits_of (suc fuel) n =
    let front = digits_of fuel (n / 10) in
    if ltb n 10 then digit n else String.◌++◌ front (digit (n % 10))

-- `n.to_string()`: a number below 10 ^ (n + 1) has at most n + 1 digits.
unfoldable pub decimal : ℕ → String
unfolding digits_of
decimal n = digits_of (n + 1) n

pub not_str_eq : (s t : String) → s ≢ t → str_eq s t ≡ false
not_str_eq s t ne = elim (Bool-cases (str_eq s t)) [
  | inl e ↦ absurd (ne ((eq_iff s t).0 e))
  | inr e ↦ e
]

pub str_ne : (s t : String) → str_eq s t ≡ false → s ≢ t
str_ne s t apart e = false≢true (sym apart ∙ (eq_iff s t).1 e)

pub str_eq_self : (s : String) → str_eq s s ≡ true
str_eq_self s = (eq_iff s s).1 refl
