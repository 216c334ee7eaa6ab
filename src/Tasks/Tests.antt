-- ===== src/Tasks/Tests.antt =====
-- The task store's and the handlers' theorems at concrete runs, over a server in memory.
use rust_basics.Prelude.{◌≡◌, ◌≢◌, refl, ◌⊎◌, true, none, some, List, [], ◌∷◌, String, ok}
use rust_basics.Valkey as Valkey
use rust_basics.Valkey.Sample.{Memory, memory, contents, memory-IsServer}
use rust_basics.Kafka.{Broker}
use rust_basics.Tasks.Domain.{Task}
use rust_basics.Tasks.Store as Store
use rust_basics.Tasks.Store.Spec as Spec
use rust_basics.Tasks.Store.Spec.Refines.{run-Represents}
use rust_basics.Tasks.Handlers.{
  AppState, created, found, status, Outside, publish_created, fails, create, get_one,
}
use rust_basics.Tasks.Handlers.Replies.{create-answers, create-get_one}
use rust_basics.Tasks.Sample.{titles, empty, milk}

-- The memory that holds one task.
abbrev stocked : Memory
unfolding Store.create
stocked = (Store.create memory titles milk empty).0

-- A broker that keeps the topics of what it was sent.
abbrev topics : Broker
topics = record { B = List String; send = λ topic key payload b. (topic ∷ b, ok tt) }

abbrev outside : Outside
outside = record {
  server = memory;
  json = titles;
  broker = topics;
  canonical_reason = λ n. none;
  to_vec = λ e. ok [];
  as_bytes = λ s. [];
}

abbrev app : AppState
app = record { producer = record { default_topic = "tasks.events" }; topic = "" }

create-answers_example :
    let ((s', b'), reply) = create outside app "a" 7 (ok (record { title = "milk" })) empty [] in
    ((task : Task) × (reply ≡ created task)
      × (Task.id task ≡ "a")
      × (Task.title task ≢ "")
      × (Store.create memory titles task empty ≡ (s', ok tt))
      × (b' ≡ publish_created outside app task []))
    ⊎ ((status reply ≡ 400) × (s' ≡ empty) × (b' ≡ []))
    ⊎ ((status reply ≡ 500) × (b' ≡ []))
create-answers_example =
    create-answers outside memory-IsServer app "a" 7 (ok (record { title = "milk" })) empty []

create-get_one_example :
    let s = (create outside app "a" 7 (ok (record { title = "milk" })) empty []).0.0 in
    let reply = (get_one outside app "a" s).1 in
    (reply ≡ found milk) ⊎ (reply ≡ fails outside app 500 "could not load task")
unfolding create Store.create Valkey.set_json Valkey.set Valkey.set_add
create-get_one_example =
    create-get_one outside memory-IsServer app "a" 7 (ok (record { title = "milk" })) empty [] milk
      refl

abbrev a_run : List Spec.Op
a_run = Spec.create milk ∷ Spec.get "a" ∷ Spec.delete "a" ∷ Spec.list ∷ []

abbrev its_answers : List Spec.Answer
its_answers = Spec.created ∷ Spec.got (some milk) ∷ Spec.deleted true ∷ Spec.listed [] ∷ []

run-Represents_example :
    Spec.AllAllowed a_run its_answers (λ _. none)
    × Spec.Represents memory memory-IsServer titles
        (contents (Spec.run memory titles a_run empty).0)
        (Spec.after a_run (λ _. none))
unfolding Spec.run Store.create Store.get Store.delete Store.list Store.collect Store.sort_tasks
    Valkey.get_json Valkey.get Valkey.set_json Valkey.set Valkey.set_add Valkey.set_members
    Valkey.del Valkey.set_remove Store.insert_task
run-Represents_example =
    run-Represents memory memory-IsServer titles a_run empty its_answers (λ _. none)
      (λ id. (refl, refl)) refl
