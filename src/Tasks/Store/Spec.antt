-- ===== src/Tasks/Store/Spec.antt =====
-- What the store promises, without keys, texts and an index: a map from ids to tasks. A run of its
-- operations that all reach the server refines the run on the map.
pub mod Entries
pub mod Deletion
pub mod Refines
use rust_basics.Prelude.{
  ◌≡◌, ◌↔◌, Bool, true, false, Option, none, some, List, [], ◌∷◌, String, str_eq, ok, if◌then◌else◌,
}
use rust_basics.Valkey.{View, Server, IsServer, Json, M, return, ◌>>=◌, ◌>>◌}
use rust_basics.Tasks.Domain.{Task}
use rust_basics.Tasks.Store as Store
use rust_basics.Tasks.Store.Contents.{indexed, kept}
use rust_basics.Tasks.Store.Sorting.{Has, Newest}

pub data Op : Type 0 where
  create : Task → Op
  get : String → Op
  delete : String → Op
  list : Op

pub data Answer : Type 0 where
  created : Answer
  got : Option Task → Answer
  deleted : Bool → Answer
  listed : List Task → Answer

abbrev pub TaskMap : Type 0
TaskMap = String → Option Task

abbrev pub update : String → Option Task → TaskMap → TaskMap
update id o m j = if str_eq id j then o else m j

abbrev pub is_there : Option Task → Bool
is_there none = false
is_there (some t) = true

-- The map after an operation.
abbrev pub step : Op → TaskMap → TaskMap
step (create t) m = update t.id (some t) m
step (get id) m = m
step (delete id) m = update id none m
step list m = m

-- The answer that the map allows; a listing is in the order of the tasks' times, and says nothing
-- of the order of tasks of one time.
abbrev pub Allowed : Op → Answer → TaskMap → Type 0
Allowed (create t) a m = a ≡ created
Allowed (get id) a m = a ≡ got (m id)
Allowed (delete id) a m = a ≡ deleted (is_there (m id))
Allowed list a m =
    (tasks : List Task) × (a ≡ listed tasks)
    × Newest tasks
    × ((x : Task) → Has x tasks ↔ ((id : String) × (m id ≡ some x)))

abbrev pub AllAllowed : List Op → List Answer → TaskMap → Type 0
AllAllowed [] [] m = Unit {0}
AllAllowed [] (a ∷ answers) m = ⊥
AllAllowed (op ∷ ops) [] m = ⊥
AllAllowed (op ∷ ops) (a ∷ answers) m = Allowed op a m × AllAllowed ops answers (step op m)

-- The map after a run.
abbrev pub after : List Op → TaskMap → TaskMap
after [] m = m
after (op ∷ ops) m = after ops (step op m)

module _ (r : Server) (json : Json Task) where
  open r use {S}

  abbrev pub perform : Op → M S Answer
  perform (create t) = do _ ← Store.create r json t; return created
  perform (get id) = do t ← Store.get r json id; return (got t)
  perform (delete id) = do b ← Store.delete r json id; return (deleted b)
  perform list = do tasks ← Store.list r json; return (listed tasks)

  unfoldable pub run : List Op → M S (List Answer)
  run [] = return []
  run (op ∷ ops) = do a ← perform op; answers ← run ops; return (a ∷ answers)

module _ (r : Server) (law : IsServer r) (json : Json Task) where
  open r use {S}
  open law use {view}

  -- What is kept for an id, where the map has a task for it or none.
  abbrev pub Entry : View → String → Option Task → Type 0
  Entry v id none = (kept v id ≡ none) × (indexed v id ≡ false)
  Entry v id (some t) =
      (raw : String) × (kept v id ≡ some raw)
      × (Json.from_str json raw ≡ ok t)
      × (indexed v id ≡ true)

  abbrev pub Represents : View → TaskMap → Type 0
  Represents v m = (id : String) → Entry v id (m id)
