-- ===== src/Tasks/Handlers/Replies.antt =====
-- What a client of the task routes sees over several requests.
use rust_basics.Prelude.{
  ℕ, ◌≡◌, ◌≢◌, ◌∙◌, sym, refl, ap, subst, inl, inr, ◌⊎◌, true, false, false≢true, eq_iff, Option,
  none, some, String, str_eq, Result, ok, err, Result-cases, Bool-cases, arith,
}
use rust_basics.Httpx.Problem.{
  Response, new, into_response, with_extension, with_type, with_title, with_instance,
}
use rust_basics.Valkey.{IsServer}
use rust_basics.Tasks.Domain.{Task}
use rust_basics.Tasks.Store as Store
use rust_basics.Tasks.Store.Contents.{create-get, delete-get}
use rust_basics.Tasks.Handlers.{
  AppState, CreateTask, problem, created, found, no_content, status, not_found, Outside,
  publish_created, fails, create, get_one, delete_one,
}

module _ (out : Outside) (law : IsServer (Outside.server out)) (state : AppState) where
  open out use {server, json, broker, canonical_reason}
  open server use {S}
  open broker use {B}

  titled : (title : String) → str_eq title "" ≡ false → title ≢ ""
  titled title e same = false≢true (sym e ∙ (eq_iff title "").1 same)

  not_problem : (r : Response) → problem r ≢ no_content
  not_problem r e = cc

  created-inj : (t u : Task) → created t ≡ created u → t ≡ u
  created-inj t u e = cc

  -- `get_one` where the load is known.
  get_one_lem :
      (id : String) (s : S) (known : Option Task)
      → ((t : Option Task) → (Store.get server json id s).1 ≡ ok t → t ≡ known)
      → let reply = (get_one out state id s).1 in
        (reply ≡ elim known [
          | some t ↦ found t
          | none ↦ problem (into_response canonical_reason (not_found id))
        ])
        ⊎ (reply ≡ fails out state 500 "could not load task")
  unfolding get_one
  get_one_lem id s known sure = elim (Result-cases (Store.get server json id s).1) [
    | inl (t, e) ↦ inl (rw (e, sure t e, get_one) refl)
    | inr (x, e) ↦ inr (rw (e, get_one) refl)
  ]

  -- A `create` either answers 201 with the task that it stored, or answers 400 or 500 and publishes
  -- nothing; a 400 leaves the store alone, too.
  pub create-answers :
      (uuid : String) (now : ℕ) (body : Result (Unit {0}) CreateTask) (s : S) (b : B)
      → let ((s', b'), reply) = create out state uuid now body s b in
        ((task : Task) × (reply ≡ created task)
          × (Task.id task ≡ uuid)
          × (Task.title task ≢ "")
          × (Store.create server json task s ≡ (s', ok tt))
          × (b' ≡ publish_created out state task b))
        ⊎ ((status reply ≡ 400) × (s' ≡ s) × (b' ≡ b))
        ⊎ ((status reply ≡ 500) × (b' ≡ b))
  unfolding create status new with_extension into_response
  create-answers uuid now (err rejection) s b = inr (inl (refl, refl, refl))
  create-answers uuid now (ok req) s b =
      let task : Task = record { id = uuid; title = req.title; done = false; created_at = now } in
      let (s', stored) = Store.create server json task s in
      elim (Bool-cases (str_eq req.title "")) [
        | inl e ↦ rw (e, create) (inr (inl (refl, refl, refl)))
        | inr e ↦ elim (Result-cases stored) [
          | inl (_, f) ↦
              rw (e, f, create) (inl (task, refl, refl, titled req.title e, λ i. (s', f i), refl))
          | inr (_, f) ↦ rw (e, f, create) (inr (inr (refl, refl)))
        ]
      ]

  -- After a `create` that answers with a task, a `get_one` of its id that reaches the server finds
  -- that task: the answer is the task or a 500, never a 404.
  pub create-get_one :
      (uuid : String) (now : ℕ) (body : Result (Unit {0}) CreateTask) (s : S) (b : B) (task : Task)
      → (create out state uuid now body s b).1 ≡ created task
      → let reply = (get_one out state task.id (create out state uuid now body s b).0.0).1 in
        (reply ≡ found task) ⊎ (reply ≡ fails out state 500 "could not load task")
  unfolding status
  create-get_one uuid now body s b task h = elim (create-answers uuid now body s b) [
    | inl (t, replied, _, _, stored, _) ↦
        let same = created-inj t task (sym replied ∙ h) in
        let back = create-get server law json t s (ap (λ p. p.1) stored) in
        let sure =
          subst
            (λ u.
              (known : Option Task)
              → (Store.get server json (Task.id u) (create out state uuid now body s b).0.0).1
                ≡ ok known
              → known ≡ some u)
            same
            (subst
              (λ w.
                (known : Option Task)
                → (Store.get server json t.id w).1 ≡ ok known
                → known ≡ some t)
              (ap (λ p. p.0) stored) back.0) in
        get_one_lem task.id _ (some task) sure
    | inr (inl (bad, _, _)) ↦ absurd (omega (arith, sym bad ∙ ap status h))
    | inr (inr (failed, _)) ↦ absurd (omega (arith, sym failed ∙ ap status h))
  ]

  -- After a `delete_one` that answers 204 the task is gone: a `get_one` of its id answers 404, or a
  -- 500 where the server fails.
  delete_one-get_one :
      (id : String) (s : S)
      → (delete_one out state id s).1 ≡ no_content
      → let reply = (get_one out state id (delete_one out state id s).0).1 in
        (reply ≡ problem (into_response canonical_reason (not_found id)))
        ⊎ (reply ≡ fails out state 500 "could not load task")
  unfolding delete_one status into_response not_found new with_type with_title with_instance
      with_extension
  delete_one-get_one id s h = elim (Result-cases (Store.delete server json id s).1) [
    | inr (x, e) ↦ absurd (not_problem _ (rw (e, delete_one) at h))
    | inl (false, e) ↦ absurd (not_problem _ (rw (e, delete_one) at h))
    | inl (true, e) ↦ elim (delete-get server law json id s true e) [
      | inl (_, gone, _, _) ↦ get_one_lem id (Store.delete server json id s).0 none gone
      | inr (wrong, _, _) ↦ absurd (false≢true (sym wrong))
    ]
  ]
