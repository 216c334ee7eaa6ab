-- ===== src/Tasks/Store.antt =====
-- crates/tasks/src/store.rs: the task repository over the cache.
pub mod Keys
pub mod Laws
pub mod Contents
pub mod Sorting
pub mod Spec
pub mod Faults
pub mod Listing
use rust_basics.Prelude.{
  ℕ, ◌≡◌, refl, Bool, true, false, Option, none, some, List, [], ◌∷◌, String, Result, ok, err,
  format, leb, if◌then◌else◌,
}
use rust_basics.Valkey.{
  Server, Json, M, return, ◌>>=◌, ◌>>◌, set_json, get_json, set_add, set_remove, set_members, del,
}
use rust_basics.Tasks.Domain.{Task}

abbrev pub index_key : String
index_key = "tasks"

abbrev pub task_key : String → String
task_key id = format ("task:" ∷ id ∷ [])

-- `sort_by_key` with the reverse of `created_at`: a stable sort, newest first.
unfoldable pub insert_task : Task → List Task → List Task
insert_task t [] = t ∷ []
insert_task t (u ∷ rest) =
    let later = u ∷ insert_task t rest in
    if leb u.created_at t.created_at then t ∷ u ∷ rest else later

unfoldable pub sort_tasks : List Task → List Task
sort_tasks [] = []
sort_tasks (t ∷ rest) = insert_task t (sort_tasks rest)

module _ (r : Server) (json : Json Task) where
  open r use {S}

  unfoldable pub create : Task → M S (Unit {0})
  create task = do set_json r json (task_key task.id) task none; set_add r index_key task.id

  unfoldable pub get : String → M S (Option Task)
  get id = get_json r json (task_key id)

  abbrev pub keep : Option Task → List Task → List Task
  keep none tasks = tasks
  keep (some t) tasks = t ∷ tasks

  -- The loop of `list` over the ids.
  unfoldable pub collect : List String → M S (List Task)
  collect [] = return []
  collect (id ∷ ids) = do
    task ← get_json r json (task_key id)
    tasks ← collect ids
    return (keep task tasks)

  unfoldable pub list : M S (List Task)
  list = do ids ← set_members r index_key; tasks ← collect ids; return (sort_tasks tasks)

  delete_existing : String → Option Task → M S Bool
  delete_existing id none = return false
  delete_existing id (some task) = do del r (task_key id); set_remove r index_key id; return true

  unfoldable pub delete : String → M S Bool
  unfolding delete_existing
  delete id = do existing ← get id; delete_existing id existing
