-- ===== src/Tasks/Handlers.antt =====
-- crates/tasks/src/lib.rs: the handlers of the task routes. A reply is a rendered problem or a value
-- that is rendered as JSON; the new id, the clock and `to_vec` come from outside.
pub mod Replies
use rust_basics.Prelude.{
  ℕ, ◌≡◌, refl, Bool, true, false, Option, none, some, List, [], ◌∷◌, String, str_eq, Result, ok,
  err, format, if◌then◌else◌,
}
use rust_basics.Httpx.Problem.{
  Problem, Value, text, new, with_type, with_title, with_instance, with_extension, Response,
  into_response,
}
use rust_basics.Valkey.{Server, Json}
use rust_basics.Kafka.{Broker, Producer, publish}
use rust_basics.Tasks.Domain.{Task, TaskCreatedEvent, event_from}
use rust_basics.Tasks.Store as Store

pub record AppState : Type 0 where
  pub producer : Producer
  pub topic : String

pub record CreateTask : Type 0 where
  pub title : String

pub data Reply : Type 0 where
  problem : Response → Reply
  created found : Task → Reply
  listed : List Task → Reply
  no_content : Reply

unfoldable pub status : Reply → ℕ
status (problem p) = p.status
status (created t) = 201
status (found t) = 200
status (listed ts) = 200
status no_content = 204

unfoldable pub not_found : String → Problem
not_found id =
    with_extension
      (with_instance
        (with_title
          (with_type (new 404 (format ("no task with id " ∷ id ∷ [])))
            "https://rust-basics/errors/task-not-found")
          "Task not found")
        (format ("/tasks/" ∷ id ∷ [])))
      "code" (text "task_not_found")

-- What the handlers take from outside.
pub record Outside : Type 1 where
  pub server : Server
  pub json : Json Task
  pub broker : Broker
  pub canonical_reason : ℕ → Option String
  pub to_vec : TaskCreatedEvent → Result String (List ℕ)
  pub as_bytes : String → List ℕ

module _ (out : Outside) (state : AppState) where
  open out use {server, json, broker, canonical_reason, to_vec, as_bytes}
  open server use {S}
  open broker use {B}

  abbrev pub fails : ℕ → String → Reply
  fails code detail = problem (into_response canonical_reason (new code detail))

  -- The event is best effort: an error of the encoding or of the broker is only logged.
  unfoldable pub publish_created : Task → B → B
  publish_created task b = elim (to_vec (event_from task)) [
    | ok payload ↦ (publish broker state.producer state.topic (as_bytes task.id) payload b).0
    | err error ↦ b
  ]

  unfoldable pub create : String → ℕ → Result (Unit {0}) CreateTask → S → B → (S × B) × Reply
  create uuid now_secs (err rejection) s b = ((s, b), fails 400 "invalid JSON body")
  create uuid now_secs (ok req) s b =
      if str_eq req.title ""
      then (
        (s, b),
        problem (
            into_response canonical_reason (
              with_extension (new 400 "task title must not be empty") "code" (text "empty_title"))),
      )
      else let task : Task = record {
        id = uuid;
        title = req.title;
        done = false;
        created_at = now_secs;
      } in
        let (s', stored) = Store.create server json task s in
        elim stored [
          | err error ↦ ((s', b), fails 500 "could not persist task")
          | ok _ ↦ ((s', publish_created task b), created task)
        ]

  unfoldable pub get_one : String → S → S × Reply
  get_one id s =
      let (s', loaded) = Store.get server json id s in
      (
        s',
        elim loaded [
          | ok task ↦ elim task [
            | some t ↦ found t
            | none ↦ problem (into_response canonical_reason (not_found id))
          ]
          | err error ↦ fails 500 "could not load task"
        ],
      )

  unfoldable pub list : S → S × Reply
  list s =
      let (s', loaded) = Store.list server json s in
      (s', elim loaded [ ok tasks ↦ listed tasks | err error ↦ fails 500 "could not list tasks" ])

  unfoldable pub delete_one : String → S → S × Reply
  delete_one id s =
      let (s', removed) = Store.delete server json id s in
      (
        s',
        elim removed [
          | ok there ↦
              if there then no_content else problem (into_response canonical_reason (not_found id))
          | err error ↦ fails 500 "could not delete task"
        ],
      )
