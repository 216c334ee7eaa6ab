-- ===== src/Tasks/Store/Spec/Refines.antt =====
-- The store's operations refine those of the map.
use rust_basics.Prelude.{◌≡◌, ◌∙◌, sym, ap, subst, some, List, [], ◌∷◌, ok, ok-inj}
use rust_basics.Valkey.{Server, IsServer, Json, return, ◌>>=◌, >>=-ok}
use rust_basics.Tasks.Domain.{Task}
use rust_basics.Tasks.Store as Store
use rust_basics.Tasks.Store.{index_key, task_key, delete_existing}
use rust_basics.Tasks.Store.Laws.{create_lem, get_task_lem}
use rust_basics.Tasks.Store.Listing.{iff_trans, list-Newest}
use rust_basics.Tasks.Store.Spec.{
  Op, create, get, delete, list, Answer, created, got, deleted, listed, TaskMap, update, step,
  Allowed, AllAllowed, after, perform, run, Represents,
}
use rust_basics.Tasks.Store.Spec.Entries.{stored-Represents, got_lem, Listed-iff}
use rust_basics.Tasks.Store.Spec.Deletion.{delete-is_there, delete-Represents}

module _ (r : Server) (law : IsServer r) (json : Json Task) where
  open r use {S}
  open law use {view}

  perform-Allowed :
      (op : Op) (s : S) (a : Answer) (m : TaskMap)
      → Represents r law json (view s) m
      → (perform r json op s).1 ≡ ok a
      → Allowed op a m × Represents r law json (view (perform r json op s).0) (step op m)
  perform-Allowed (create t) s a m h e =
      let (_, wrote, last, q) = >>=-ok (Store.create r json t) (λ _. return created) s e in
      let (raw, reads, kept_now) = create_lem r law json t s wrote in
      (
        sym (ok-inj last),
        rw q (
            subst (λ w. Represents r law json w (update t.id (some t) m)) (sym kept_now)
              (stored-Represents r law json t raw (view s) m reads h)),
      )
  perform-Allowed (get id) s a m h e =
      let (t, found, last, q) = >>=-ok (Store.get r json id) (λ t. return (got t)) s e in
      let (decoded, kept_now) = get_task_lem r law json id s t found in
      (
        sym (ok-inj last) ∙ ap got (got_lem r law json (view s) id (m id) t (h id) decoded),
        rw q (subst (λ w. Represents r law json w m) (sym kept_now) h),
      )
  perform-Allowed (delete id) s a m h e =
      let (b, done, last, q) = >>=-ok (Store.delete r json id) (λ b. return (deleted b)) s e in
      (
        sym (ok-inj last) ∙ ap deleted (delete-is_there r law json id s b (m id) (h id) done),
        rw q (delete-Represents r law json id s b m h done),
      )
  perform-Allowed list s a m h e =
      let (tasks, found, last, q) = >>=-ok (Store.list r json) (λ ts. return (listed ts)) s e in
      let (newest, has, kept_now) = list-Newest r law json s tasks found in
      (
        (
          tasks,
          sym (ok-inj last),
          newest,
          λ x. iff_trans (has x) (Listed-iff r law json (view s) m x h),
        ),
        rw q (subst (λ w. Represents r law json w m) (sym kept_now) h),
      )

  -- From contents that represent a map of ids to tasks, a run of creations, reads, deletions and
  -- listings that all succeed gives the answers that the map allows, step by step, and ends with
  -- contents that represent the map after the run.
  pub run-Represents :
      (ops : List Op) (s : S) (answers : List Answer) (m : TaskMap)
      → Represents r law json (view s) m
      → (run r json ops s).1 ≡ ok answers
      → AllAllowed ops answers m × Represents r law json (view (run r json ops s).0) (after ops m)
  unfolding run
  run-Represents [] s [] m h e = (tt, h)
  run-Represents [] s (a ∷ answers) m h e = cc
  run-Represents (op ∷ ops) s answers m h e =
      let (a, first, rest, q) =
        >>=-ok (perform r json op) (λ a. run r json ops >>= λ l. return (a ∷ l)) s e in
      let (l, more, last, p) =
        >>=-ok (run r json ops) (λ l. return (a ∷ l)) (perform r json op s).0 rest in
      let (allowed, here) = perform-Allowed op s a m h first in
      let (all, there) = run-Represents ops (perform r json op s).0 l (step op m) here more in
      (subst (λ l. AllAllowed (op ∷ ops) l m) (ok-inj last) (allowed, all), rw (q, p) there)
