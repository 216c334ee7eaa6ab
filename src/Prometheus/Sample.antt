-- ===== src/Prometheus/Sample.antt =====
-- A metrics library that keeps its numbers in memory, by the names of the vectors, for the tests.
use rust_basics.Prelude.{
  ℕ, ◌+◌, ◌≡◌, ◌≢◌, refl, sym, Bool, true, false, ◌&&◌, List, [], ◌∷◌, String, str_eq, str_eq_self,
  not_str_eq, ok, err, ok-inj, if◌then◌else◌, arith,
}
use rust_basics.Prometheus.{Prometheus, same_labels, IsPrometheus}

pub record Numbers : Type 0 where
  pub totals : String → List String → ℕ
  pub levels : String → List String → ℕ
  pub counts : String → List String → ℕ
  pub registered : List String

abbrev pub none_counted : Numbers
none_counted = record {
  totals = λ v ls. 0;
  levels = λ v ls. 0;
  counts = λ v ls. 0;
  registered = [];
}

abbrev pub more : String → List String → (String → List String → ℕ) → String → List String → ℕ
more v ls f w ms = if str_eq v w && same_labels ls ms then f w ms + 1 else f w ms

abbrev pub replaced :
    String → List String → ℕ → (String → List String → ℕ) → String → List String → ℕ
replaced v ls x f w ms = if str_eq v w && same_labels ls ms then x else f w ms

abbrev pub has : String → List String → Bool
has n [] = false
has n (x ∷ xs) = if str_eq n x then true else has n xs

abbrev pub numbers : Prometheus
numbers = record {
  S = Numbers;
  Vector = λ k. String;
  Registry = Unit {0};
  F64 = ℕ;
  of_u8 = λ n. n;
  new_vector = λ k opts labels s. (s, ok opts.name);
  new_registry = λ s. (s, tt);
  register = λ {k} r v s.
      if has v s.registered
      then (s, err "duplicate metrics collector registration attempted")
      else (record s { registered = v ∷ s.registered }, ok tt);
  register_process = λ r s. s;
  inc = λ v ls s. record s { totals = more v ls s.totals };
  set = λ v ls x s. record s { levels = replaced v ls x s.levels };
  observe = λ v ls x s. record s { counts = more v ls s.counts };
  gather = λ r s. ok [];
  from_utf8 = λ bytes. ok "";
}

pub more_self :
    (v : String) (ls ms : List String) (f : String → List String → ℕ)
    → more v ls f v ms ≡ (if same_labels ls ms then f v ms + 1 else f v ms)
more_self v ls ms f = let self = str_eq_self v in ground arith

pub more_other :
    (v w : String) (ls ms : List String) (f : String → List String → ℕ)
    → v ≢ w
    → more v ls f w ms ≡ f w ms
more_other v w ls ms f apart = let differ = not_str_eq v w apart in ground arith

pub replaced_self :
    (v : String) (ls ms : List String) (x : ℕ) (f : String → List String → ℕ)
    → replaced v ls x f v ms ≡ (if same_labels ls ms then x else f v ms)
replaced_self v ls ms x f = let self = str_eq_self v in ground arith

abbrev pub numbers-IsPrometheus : IsPrometheus numbers
numbers-IsPrometheus = record {
  name = λ {k} v. v;
  total = λ v ls s. s.totals v ls;
  level = λ v ls s. s.levels v ls;
  observations = λ v ls s. s.counts v ls;
  new_vector-name = λ k opts labels s v e. sym (ok-inj e);
  total-inc = λ v ls ms s few. more_self v ls ms s.totals;
  total-inc_other = λ v w ls ms s apart. more_other v w ls ms s.totals apart;
  total-set = λ v w ls ms x s. refl;
  total-observe = λ v w ls ms x s. refl;
  level-set = λ v ls ms x s. replaced_self v ls ms x s.levels;
  level-inc = λ v w ls ms s. refl;
  level-observe = λ v w ls ms x s. refl;
  observations-observe = λ v ls ms x s few. more_self v ls ms s.counts;
  observations-inc = λ v w ls ms s. refl;
}
