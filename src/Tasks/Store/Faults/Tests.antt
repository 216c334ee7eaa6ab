-- ===== src/Tasks/Store/Faults/Tests.antt =====
-- The theorems on a server that refuses to add to a set, so that each creation is cut off halfway.
use rust_basics.Prelude.{refl, true, false, none, sym, subst, some, List, [], ◌∷◌}
use rust_basics.Valkey
use rust_basics.Valkey.Sample.{
  flaky, flaky-IsServer, flaky-IsAtomic, Memory, put, contents, memory-IsServer,
}
use rust_basics.Tasks.Store as Store
use rust_basics.Tasks.Store.Spec.{Op, create, get, delete, list, deleted, perform}
use rust_basics.Tasks.Store.Faults as Faults
use rust_basics.Tasks.Store.Faults.Fits.{Fits-write}
use rust_basics.Tasks.Store.Faults.{Shelf, Trace, run_on, Fits}
use rust_basics.Tasks.Store.Faults.Runs.{run_on-Trace}
use rust_basics.Tasks.Store.Faults.History.{AllWithout, Own-put, deleted_stays}
use rust_basics.Tasks.Sample.{titles, empty, milk}

abbrev bare : Shelf
bare = record { tasks = λ _. none; index = λ _. false }

abbrev a_run : List Op
a_run = create milk ∷ get "a" ∷ list ∷ delete "a" ∷ []

run_on-Trace_example :
    (s' : Shelf) × Trace a_run (run_on flaky titles a_run empty).1 bare s'
    × Fits flaky flaky-IsServer titles (contents (run_on flaky titles a_run empty).0) s'
run_on-Trace_example =
    run_on-Trace flaky flaky-IsServer titles flaky-IsAtomic a_run empty bare λ id. (refl, refl)

-- What such a creation leaves.
abbrev half : Memory
half = put "task:a" (some "milk") empty

abbrev half_shelf : Shelf
half_shelf = Faults.put "a" (some milk) bare

half-Fits : Fits flaky flaky-IsServer titles (contents half) half_shelf
half-Fits =
    let fits =
      Fits-write flaky flaky-IsServer titles "a" (some "milk") (some milk) (contents empty) bare
        ("milk", refl, refl) (λ id. (refl, refl)) in
    subst (λ w. Fits flaky flaky-IsServer titles w half_shelf)
      (sym (memory-IsServer.set-ok "task:a" "milk" empty refl)) fits

deleted_stays_example :
    AllWithout "a"
      (get "a" ∷ list ∷ [])
      (run_on flaky titles (get "a" ∷ list ∷ []) (perform flaky titles (delete "a") half).0).1
unfolding Store.delete Store.get Store.delete_existing Valkey.get_json Valkey.get Valkey.del
    Valkey.set_remove
deleted_stays_example =
    deleted_stays flaky flaky-IsServer titles flaky-IsAtomic "a" half half_shelf (deleted true)
      (get "a" ∷ list ∷ []) half-Fits (Own-put "a" milk bare (λ id t e. cc)) refl (tt, (tt, tt))
