-- ===== src/Tasks/Store/Faults.antt =====
-- What the store promises while its server fails: a map from ids to tasks and an index of ids, which
-- an operation that is cut off changes by halves.
pub mod Fits
pub mod Cut
pub mod Runs
pub mod History
mod Tests
use rust_basics.Prelude.{
  ◌≡◌, ◌↔◌, ◌⊎◌, Bool, true, false, Option, none, some, List, [], ◌∷◌, String, str_eq, Result, ok,
  err, if◌then◌else◌,
}
use rust_basics.Valkey.{View, Server, IsServer, Json}
use rust_basics.Tasks.Domain.{Task}
use rust_basics.Tasks.Store.Contents.{indexed, kept}
use rust_basics.Tasks.Store.Sorting.{Has, Newest}
use rust_basics.Tasks.Store.Spec.{
  Op, create, get, delete, list, Answer, created, got, deleted, listed, TaskMap, update, is_there,
  perform,
}

pub record Shelf : Type 0 where
  pub tasks : TaskMap
  pub index : String → Bool

abbrev pub mark : String → Bool → (String → Bool) → String → Bool
mark id b index j = if str_eq id j then b else index j

-- A creation writes the text and then the index, a deletion removes them in the same order.
abbrev pub put : String → Option Task → Shelf → Shelf
put id o s = record s { tasks = update id o s.tasks }

abbrev pub set_index : String → Bool → Shelf → Shelf
set_index id b s = record s { index = mark id b s.index }

abbrev pub delete_from : Option Task → String → Shelf → Shelf
delete_from none id s = s
delete_from (some t) id s = set_index id false (put id none s)

-- An operation that is cut off has done nothing, its first write, or both.
abbrev pub Partly : String → Option Task → Bool → Shelf → Shelf → Type 0
Partly id o b s s' = (s' ≡ s) ⊎ (s' ≡ put id o s) ⊎ (s' ≡ set_index id b (put id o s))

-- How an operation can be answered, and what it then leaves. A listing is in the order of the tasks'
-- times, and has the tasks of the ids in the index.
abbrev pub Possible : Op → Result String Answer → Shelf → Shelf → Type 0
Possible (create t) (ok a) s s' = (a ≡ created) × (s' ≡ set_index t.id true (put t.id (some t) s))
Possible (create t) (err e) s s' = Partly t.id (some t) true s s'
Possible (get id) (ok a) s s' = (a ≡ got (s.tasks id)) × (s' ≡ s)
Possible (get id) (err e) s s' = s' ≡ s
Possible (delete id) (ok a) s s' =
    (a ≡ deleted (is_there (s.tasks id))) × (s' ≡ delete_from (s.tasks id) id s)
Possible (delete id) (err e) s s' = Partly id none false s s'
Possible list (ok a) s s' =
    ((tasks : List Task) × (a ≡ listed tasks)
      × Newest tasks
      × ((x : Task) → Has x tasks ↔ ((id : String) × (s.index id ≡ true) × (s.tasks id ≡ some x))))
    × (s' ≡ s)
Possible list (err e) s s' = s' ≡ s

-- A run, step by step.
abbrev pub Trace : List Op → List (Result String Answer) → Shelf → Shelf → Type 0
Trace [] [] s s' = s' ≡ s
Trace [] (a ∷ answers) s s' = ⊥
Trace (op ∷ ops) [] s s' = ⊥
Trace (op ∷ ops) (a ∷ answers) s s' = (mid : Shelf) × Possible op a s mid × Trace ops answers mid s'

module _ (r : Server) (json : Json Task) where
  open r use {S}

  -- Every operation is tried, whatever became of those before it.
  unfoldable pub run_on : List Op → S → S × List (Result String Answer)
  run_on [] s = (s, [])
  run_on (op ∷ ops) s =
      let (s', a) = perform r json op s in
      let (last, answers) = run_on ops s' in (last, a ∷ answers)

module _ (r : Server) (law : IsServer r) (json : Json Task) where
  -- What is kept for an id.
  abbrev pub Text : Option String → Option Task → Type 0
  Text k none = k ≡ none
  Text k (some t) = (raw : String) × (k ≡ some raw) × (Json.from_str json raw ≡ ok t)

  abbrev pub Fits : View → Shelf → Type 0
  Fits v s = (id : String) → Text (kept v id) (s.tasks id) × (indexed v id ≡ s.index id)
