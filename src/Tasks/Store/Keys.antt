-- ===== src/Tasks/Store/Keys.antt =====
-- The keys of the store: one for each id, and none of them the index's.
use text.Mathlib.TextLemmas.{append_cancel_left, cons-append, append_assoc, append-nil}
use Prim.Native.Char.{code}
use Prim.Native.String.{◌++◌}
use rust_basics.Prelude.{
  ◌≡◌, ◌≢◌, ◌∙◌, sym, inl, inr, Bool, false, String, str_eq, eq_iff, str_eq_self, not_str_eq,
  Bool-cases, ap, false≢true, ◌==◌,
}
use rust_basics.Tasks.Store.{index_key, task_key}

task_key-inj : (i j : String) → task_key i ≡ task_key j → i ≡ j
task_key-inj i j e = sym (append-nil i) ∙ append_cancel_left "task:" _ _ e ∙ append-nil j

apart_keys : (i j : String) → str_eq i j ≡ false → str_eq (task_key i) (task_key j) ≡ false
apart_keys i j apart =
    not_str_eq (task_key i) (task_key j)
      (λ e. false≢true (sym apart ∙ ap (str_eq i) (sym (task_key-inj i j e)) ∙ str_eq_self i))

pub str_eq-task_key : (i j : String) → str_eq (task_key i) (task_key j) ≡ str_eq i j
str_eq-task_key i j = elim (Bool-cases (str_eq i j)) [
  | inl same ↦ rw ((eq_iff i j).0 same) (str_eq_self (task_key j) ∙ sym (str_eq_self j))
  | inr apart ↦ apart_keys i j apart ∙ sym apart
]

-- After `task`, one key goes on with an `s`, the other with a colon.
starts : String → Bool
starts (String.◌∷◌ c _) = code c == 115
starts String.[] = false

starts-colon : (id : String) → starts (":" ++ id) ≡ false
unfolding starts
starts-colon id = ap starts (cons-append ":" "" id)

pub index-ne-task_key : (id : String) → index_key ≢ task_key id
unfolding starts
index-ne-task_key id e =
    let tails =
      append_cancel_left "task" "s" (":" ++ (id ++ "")) (e ∙ append_assoc "task" ":" (id ++ "")) in
    false≢true (sym (ap starts tails ∙ starts-colon (id ++ "")))
