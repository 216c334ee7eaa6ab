-- ===== src/Tasks/Api/Replies.antt =====
-- The service's answers, explained by a map of ids to tasks and an index of ids.
use rust_basics.Prelude.{
  ◌≡◌, refl, sym, subst, inl, inr, Bool, true, false, Option, none, some, List, [], ◌∷◌, String,
  str_eq, ok, Result-cases, Bool-cases,
}
use rust_basics.Httpx.Problem.{
  new, into_response, with_extension, with_type, with_title, with_instance,
}
use rust_basics.Valkey.{IsServer}
use rust_basics.Valkey.Atomic.{IsAtomic}
use rust_basics.Tasks.Domain.{Task}
use rust_basics.Tasks.Store as Store
use rust_basics.Tasks.Store.Spec.{is_there}
use rust_basics.Tasks.Store.Faults.{Shelf, put, set_index, delete_from, Fits}
use rust_basics.Tasks.Store.Faults.Cut.{create-FitsPartly, get_kept, delete-FitsPartly, list_kept}
use rust_basics.Tasks.Store.Faults.Runs.{create-Fits, get-Fits, delete-Fits, list-Fits}
use rust_basics.Tasks.Handlers.{
  AppState, Reply, status, not_found, Outside, create, get_one, list, delete_one,
}
use rust_basics.Tasks.Api.{
  Handler, lists, creates, gets, deletes, Route, Picked, row, by_axum, routes, Request, handle,
  answer, serve, Means, Explains, AllExplained,
}

module _ (out : Outside) (law : IsServer (Outside.server out))
    (atomic : IsAtomic (Outside.server out) law) (state : AppState) where
  open out use {server, json, broker}
  open server use {S}
  open broker use {B}
  open law use {view}

  module _ {Q : Type 0} where
    -- An explanation of a reply, with contents that fit what it leaves.
    abbrev Explained : Handler → Request Q → Reply → Shelf → S → Type 0
    Explained h q reply s x = (s' : Shelf) × Means h q reply s s' × Fits server law json (view x) s'

    get_one-Means :
        (id : String) (q : Request Q) (x : S) (s : Shelf)
        → Fits server law json (view x) s
        → Explained (gets id) q (get_one out state id x).1 s (get_one out state id x).0
    unfolding get_one status not_found new into_response with_extension with_type with_title
        with_instance
    get_one-Means id q x s fits =
        let fits' =
          subst (λ w. Fits server law json w s) (sym (get_kept server law atomic json id x)) fits in
        elim (Result-cases (Store.get server json id x).1) [
          | inr (_, e) ↦ (s, (refl, rw (e, get_one) (inl refl)), fits')
          | inl (none, e) ↦ (
            s,
            (
              refl,
              rw (e, get_one) (inr (inr (refl, sym (get-Fits server law json id x s none fits e)))),
            ),
            fits',
          )
          | inl (some t, e) ↦ (
            s,
            (
              refl,
              rw (e, get_one)
                  (inr (inl (t, refl, sym (get-Fits server law json id x s (some t) fits e)))),
            ),
            fits',
          )
        ]

    list-Means :
        (q : Request Q) (x : S) (s : Shelf)
        → Fits server law json (view x) s
        → Explained lists q (list out state x).1 s (list out state x).0
    unfolding list status new into_response
    list-Means q x s fits =
        let fits' =
          subst (λ w. Fits server law json w s) (sym (list_kept server law atomic json x)) fits in
        elim (Result-cases (Store.list server json x).1) [
          | inr (_, e) ↦ (s, (refl, rw (e, list) (inl refl)), fits')
          | inl (ts, e) ↦
              let (newest, has) = list-Fits server law json x s ts fits e in
              (s, (refl, rw (e, list) (inr (ts, refl, newest, has))), fits')
        ]

    -- What a deletion that was answered says, by what the map had.
    deleted-Means :
        (id : String) (q : Request Q) (x : S) (s : Shelf) (b : Bool) (o : Option Task)
        → s.tasks id ≡ o
        → b ≡ is_there o
        → (Store.delete server json id x).1 ≡ ok b
        → Means (deletes id) q (delete_one out state id x).1 s (delete_from o id s)
    unfolding delete_one status not_found new into_response with_extension with_type with_title
        with_instance
    deleted-Means id q x s true none at there e = cc
    deleted-Means id q x s false (some t) at there e = cc
    deleted-Means id q x s false none at there e = rw (e, delete_one) (inr (inl (refl, at, refl)))
    deleted-Means id q x s true (some t) at there e = rw (e, delete_one) (inl (t, refl, at, refl))

    delete_one-Means :
        (id : String) (q : Request Q) (x : S) (s : Shelf)
        → Fits server law json (view x) s
        → Explained (deletes id) q (delete_one out state id x).1 s (delete_one out state id x).0
    unfolding delete_one status new into_response
    delete_one-Means id q x s fits = elim (Result-cases (Store.delete server json id x).1) [
      | inr (_, e) ↦
          let (s', cut, fits') = delete-FitsPartly server law atomic json id x s fits in
          (s', rw (e, delete_one) (inr (inr (refl, cut))), fits')
      | inl (b, e) ↦
          let (there, fits') = delete-Fits server law json id x s b fits e in
          (delete_from (s.tasks id) id s, deleted-Means id q x s b (s.tasks id) refl there e, fits')
    ]

    create-Means :
        (q : Request Q) (x : S) (b : B) (s : Shelf)
        → Fits server law json (view x) s
        → let ((x', _), reply) = create out state q.uuid q.now_secs q.body x b in
          Explained creates q reply s x'
    unfolding create status new into_response with_extension
    create-Means q x b s fits = elim (Result-cases q.body) [
      | inr (_, bad) ↦ rw (bad, create) (s, inr (inl (refl, refl)), fits)
      | inl (req, good) ↦
          let task : Task = record {
            id = q.uuid;
            title = req.title;
            done = false;
            created_at = q.now_secs;
          } in
          elim (Bool-cases (str_eq req.title "")) [
            | inl e ↦ rw (good, create) (rw e (s, inr (inl (refl, refl)), fits))
            | inr e ↦ elim (Result-cases (Store.create server json task x).1) [
              | inl (_, f) ↦
                  rw (good, create)
                    (rw (e, f)
                      (
                        set_index q.uuid true (put q.uuid (some task) s),
                        inl (task, refl, refl, refl),
                        create-Fits server law json task x s fits f,
                      ))
              | inr (_, f) ↦
                  let (s', cut, fits') = create-FitsPartly server law atomic json task x s fits in
                  rw (good, create) (rw (e, f) (s', inr (inr (refl, task, refl, cut)), fits'))
            ]
          ]
    ]

    handle-Means :
        (h : Handler) (q : Request Q) (x : S) (b : B) (s : Shelf)
        → Fits server law json (view x) s
        → let ((x', _), reply) = handle out state h q x b in Explained h q reply s x'
    unfolding handle
    handle-Means lists q x b s fits = list-Means q x s fits
    handle-Means creates q x b s fits = create-Means q x b s fits
    handle-Means (gets id) q x b s fits = get_one-Means id q x s fits
    handle-Means (deletes id) q x b s fits = delete_one-Means id q x s fits

    answer-Explains :
        (r : Picked) (q : Request Q) (x : S) (b : B) (s : Shelf)
        → Fits server law json (view x) s
        → (s' : Shelf) × Explains r q (answer out state r q x b).1 s s'
          × Fits server law json (view (answer out state r q x b).0.0) s'
    unfolding answer
    answer-Explains (row r id) q x b s fits = handle-Means (r.handler id) q x b s fits
    answer-Explains (by_axum code) q x b s fits = (s, (refl, refl), fits)

    -- Whatever requests come, whichever rows of `routes` take them, and whatever commands the cache's server fails at, before it runs them or
    -- after: the answers are explained, one after the other, by a map of ids to tasks and an index of
    -- ids. A 200 has the task that the map has, or the tasks of the index, newest first; a 404 of a
    -- route says that the map has none; a 201 has put its task into both; a 204 has taken out a task
    -- that was there; a 400 has changed nothing; and a 500 has changed nothing where it is about a
    -- read, and otherwise nothing, the map alone, or both. The contents fit the map and the index at
    -- the start, and then at the end.
    pub serve-AllExplained :
        (pick : List Route → Q → Picked) (qs : List (Request Q)) (x : S) (b : B) (s : Shelf)
        → Fits server law json (view x) s
        → (s' : Shelf) × AllExplained pick qs (serve out state pick qs x b).1 s s'
          × Fits server law json (view (serve out state pick qs x b).0.0) s'
    unfolding serve
    serve-AllExplained pick [] x b s fits = (s, refl, fits)
    serve-AllExplained pick (q ∷ qs) x b s fits =
        let ((x', b'), _) = answer out state (pick routes q.head) q x b in
        let (mid, explained, fits') = answer-Explains (pick routes q.head) q x b s fits in
        let (s', all, last) = serve-AllExplained pick qs x' b' mid fits' in
        (s', (mid, explained, all), last)
