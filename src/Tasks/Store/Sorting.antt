-- ===== src/Tasks/Store/Sorting.antt =====
-- The order in which `list` puts the tasks.
use rust_basics.Prelude.{◌≤◌, ◌≡◌, ◌↔◌, ◌⊎◌, inl, inr, List, [], ◌∷◌, leb, arith, Bool-cases}
use rust_basics.Tasks.Domain.{Task}
use rust_basics.Tasks.Store.{insert_task, sort_tasks}

-- The task is one of the list's.
abbrev pub Has : Task → List Task → Type 0
Has x [] = ⊥
Has x (t ∷ tasks) = (t ≡ x) ⊎ Has x tasks

-- No task was created after one that stands before it.
abbrev pub Newest : List Task → Type 0
Newest [] = Unit {0}
Newest (t ∷ tasks) = ((x : Task) → Has x tasks → x.created_at ≤ t.created_at) × Newest tasks

Has-insert_task :
    (x t : Task) (tasks : List Task) → Has x (insert_task t tasks) ↔ ((t ≡ x) ⊎ Has x tasks)
unfolding insert_task
Has-insert_task x t [] = (λ h. h, λ h. h)
Has-insert_task x t (u ∷ tasks) =
    let ih = Has-insert_task x t tasks in
    elim (Bool-cases (leb u.created_at t.created_at)) [
      | inl e ↦ rw (e, insert_task) (λ h. h, λ h. h)
      | inr e ↦
          rw (e, insert_task)
            (
              λ h. elim h [
                | inl here ↦ inr (inl here)
                | inr later ↦ elim (ih.0 later) [ inl new ↦ inl new | inr old ↦ inr (inr old) ]
              ],
              λ h. elim h [
                | inl new ↦ inr (ih.1 (inl new))
                | inr old ↦ elim old [ inl here ↦ inl here | inr later ↦ inr (ih.1 (inr later)) ]
              ],
            )
    ]

pub Has-sort_tasks : (x : Task) (tasks : List Task) → Has x (sort_tasks tasks) ↔ Has x tasks
unfolding sort_tasks
Has-sort_tasks x [] = (λ h. h, λ h. h)
Has-sort_tasks x (t ∷ tasks) =
    let ih = Has-sort_tasks x tasks in
    let step = Has-insert_task x t (sort_tasks tasks) in
    (
      λ h. elim (step.0 h) [ inl here ↦ inl here | inr later ↦ inr (ih.0 later) ],
      λ h. elim h [ inl here ↦ step.1 (inl here) | inr later ↦ step.1 (inr (ih.1 later)) ],
    )

at_most :
    (x t u : Task)
    → u.created_at ≤ t.created_at
    → x.created_at ≤ u.created_at
    → x.created_at ≤ t.created_at
at_most x t u a b = omega arith

insert_task-Newest : (t : Task) (tasks : List Task) → Newest tasks → Newest (insert_task t tasks)
unfolding insert_task
insert_task-Newest t [] n = (λ x h. absurd h, tt)
insert_task-Newest t (u ∷ tasks) (first, rest) =
    let ih = insert_task-Newest t tasks rest in
    elim (Bool-cases (leb u.created_at t.created_at)) [
      | inl e ↦
          let le : u.created_at ≤ t.created_at = ground arith in
          rw (e, insert_task)
            (
              λ x h. elim h [
                | inl here ↦ ground arith
                | inr later ↦ at_most x t u le (first x later)
              ],
              (first, rest),
            )
      | inr e ↦
          let le : t.created_at ≤ u.created_at = ground arith in
          rw (e, insert_task)
            (
              λ x h. elim ((Has-insert_task x t tasks).0 h) [
                | inl new ↦ ground arith
                | inr old ↦ first x old
              ],
              ih,
            )
    ]

pub sort_tasks-Newest : (tasks : List Task) → Newest (sort_tasks tasks)
unfolding sort_tasks
sort_tasks-Newest [] = tt
sort_tasks-Newest (t ∷ tasks) = insert_task-Newest t (sort_tasks tasks) (sort_tasks-Newest tasks)
