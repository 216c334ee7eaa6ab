-- ===== src/Tasks/Api.antt =====
-- crates/tasks/src/lib.rs: `routes`, and what the service promises to its clients while the server of
-- its cache fails. Which row of the table takes a request, and what the request's path gives for
-- `{id}`, is axum's, a parameter, and so is what axum answers where no row does.
pub mod Replies
mod Tests
use rust_basics.Prelude.{ℕ, ◌≡◌, ◌↔◌, ◌⊎◌, true, false, none, some, List, [], ◌∷◌, String, Result}
use rust_basics.Tasks.Domain.{Task}
use rust_basics.Tasks.Store.Sorting.{Has, Newest}
use rust_basics.Tasks.Store.Faults.{Shelf, put, set_index, Partly}
use rust_basics.Tasks.Handlers.{
  AppState, CreateTask, Reply, created, found, listed, no_content, status, Outside, create, get_one,
  list, delete_one,
}

-- The handlers, with what they take from the path.
pub data Handler : Type 0 where
  lists creates : Handler
  gets deletes : String → Handler

-- One method of one template, with its handler for what the path gives.
pub record Route : Type 0 where
  pub template : String
  pub method : String
  pub handler : String → Handler

unfoldable pub routes : List Route
routes =
    record { template = "/tasks"; method = "GET"; handler = λ _. lists }
    ∷ record { template = "/tasks"; method = "POST"; handler = λ _. creates }
    ∷ record { template = "/tasks/{id}"; method = "GET"; handler = gets }
    ∷ record { template = "/tasks/{id}"; method = "DELETE"; handler = deletes }
    ∷ []

-- What axum makes of a request: a row that takes it, with its `{id}`, or an answer of its own, such
-- as 404 or 405.
pub data Picked : Type 0 where
  row : Route → String → Picked
  by_axum : ℕ → Picked

-- A request, with the id and the clock that `create` would take for it.
pub record Request (Q : Type 0) : Type 0 where
  pub head : Q
  pub body : Result (Unit {0}) CreateTask
  pub uuid : String
  pub now_secs : ℕ

pub data Answer : Type 0 where
  replied : Reply → Answer
  own : ℕ → Answer

module _ (out : Outside) (state : AppState) where
  open out use {server, broker}
  open server use {S}
  open broker use {B}

  module _ {Q : Type 0} where
    unfoldable pub handle : Handler → Request Q → S → B → (S × B) × Reply
    handle lists q s b = let (s', reply) = list out state s in ((s', b), reply)
    handle creates q s b = create out state q.uuid q.now_secs q.body s b
    handle (gets id) q s b = let (s', reply) = get_one out state id s in ((s', b), reply)
    handle (deletes id) q s b = let (s', reply) = delete_one out state id s in ((s', b), reply)

    unfoldable pub answer : Picked → Request Q → S → B → (S × B) × Answer
    unfolding handle
    answer (row r id) q s b =
        let (after, reply) = handle (r.handler id) q s b in (after, replied reply)
    answer (by_axum code) q s b = ((s, b), own code)

    -- Requests, one after the other.
    unfoldable pub serve :
        (List Route → Q → Picked) → List (Request Q) → S → B → (S × B) × List Answer
    unfolding answer
    serve pick [] s b = ((s, b), [])
    serve pick (q ∷ qs) s b =
        let ((s', b'), a) = answer (pick routes q.head) q s b in
        let (last, answers) = serve pick qs s' b' in (last, a ∷ answers)

-- What each reply says of the map of ids to tasks and of the index, and what it does to them.
abbrev pub Means : {Q : Type 0} → Handler → Request Q → Reply → Shelf → Shelf → Type 0
Means lists q reply s s' =
    (s' ≡ s)
    × ((status reply ≡ 500)
        ⊎ ((tasks : List Task) × (reply ≡ listed tasks)
            × Newest tasks
            × ((x : Task)
                → Has x tasks ↔ ((id : String) × (s.index id ≡ true) × (s.tasks id ≡ some x)))))
Means creates q reply s s' =
    ((t : Task) × (reply ≡ created t)
      × (t.id ≡ q.uuid)
      × (s' ≡ set_index t.id true (put t.id (some t) s)))
    ⊎ ((status reply ≡ 400) × (s' ≡ s))
    ⊎ ((status reply ≡ 500) × (t : Task) × (t.id ≡ q.uuid) × Partly t.id (some t) true s s')
Means (gets id) q reply s s' =
    (s' ≡ s)
    × ((status reply ≡ 500)
        ⊎ ((t : Task) × (reply ≡ found t) × (s.tasks id ≡ some t))
        ⊎ ((status reply ≡ 404) × (s.tasks id ≡ none)))
Means (deletes id) q reply s s' =
    ((t : Task) × (reply ≡ no_content)
      × (s.tasks id ≡ some t)
      × (s' ≡ set_index id false (put id none s)))
    ⊎ ((status reply ≡ 404) × (s.tasks id ≡ none) × (s' ≡ s))
    ⊎ ((status reply ≡ 500) × Partly id none false s s')

abbrev pub Explains : {Q : Type 0} → Picked → Request Q → Answer → Shelf → Shelf → Type 0
Explains (row r id) q (replied reply) s s' = Means (r.handler id) q reply s s'
Explains (row r id) q (own code) s s' = ⊥
Explains (by_axum code) q a s s' = (a ≡ own code) × (s' ≡ s)

module _ {Q : Type 0} (pick : List Route → Q → Picked) where
  abbrev pub AllExplained : List (Request Q) → List Answer → Shelf → Shelf → Type 0
  AllExplained [] [] s s' = s' ≡ s
  AllExplained [] (a ∷ answers) s s' = ⊥
  AllExplained (q ∷ qs) [] s s' = ⊥
  AllExplained (q ∷ qs) (a ∷ answers) s s' =
      (mid : Shelf) × Explains (pick routes q.head) q a s mid × AllExplained qs answers mid s'
