-- ===== src/Tasks/Sample.antt =====
-- Tasks whose JSON is their title, for the tests.
use rust_basics.Prelude.{
  ◌≡◌, sym, ap, inl, inr, Bool, true, false, not, ◌&&◌, none, [], String, str_eq, eq_iff, Result,
  ok, err, if◌then◌else◌, ◌==◌, arith, Bool-cases,
}
use rust_basics.Valkey.{Json}
use rust_basics.Valkey.Sample.{Memory}
use rust_basics.Tasks.Domain.{Task}

abbrev pub task_of : String → Task
task_of title = record { id = "a"; title = title; done = false; created_at = 7 }

abbrev pub plain : Task → Bool
plain t = str_eq t.id "a" && not t.done && t.created_at == 7

pub plain_lem : (t : Task) → plain t ≡ true → task_of t.title ≡ t
plain_lem t h =
    let name : t.id ≡ "a" = (eq_iff t.id "a").0 (ground arith) in
    let open_ : t.done ≡ false = ground arith in
    let age : t.created_at ≡ 7 = ground arith in
    λ i. record { id = sym name i; title = t.title; done = sym open_ i; created_at = sym age i }

abbrev pub text_of : Task → Result String String
text_of t = if plain t then ok t.title else err "not plain"

pub text_of_lem :
    (t : Task) (s : String)
    → text_of t ≡ ok s
    → ◌≡◌ {A = Result String Task} (ok (task_of s)) (ok t)
text_of_lem t s h = elim (Bool-cases (plain t)) [
  | inl e ↦ let same : t.title ≡ s = ground arith in rw (← same) (ap ok (plain_lem t e))
  | inr e ↦ absurd (ground arith)
]

-- The JSON of a task that is open, has the id `a` and the time 7 is its title.
abbrev pub titles : Json Task
titles = record {
  to_string = text_of;
  from_str = λ s. ok (task_of s);
  from_str-to_string = text_of_lem;
}

abbrev pub empty : Memory
empty = record { texts = λ k. none; sets = λ k. [] }

abbrev pub milk : Task
milk = task_of "milk"
