-- ===== src/Tasks/Store/Contents.antt =====
-- The store as its callers see it: what is created is found, what is deleted is gone.
use rust_basics.Prelude.{
  ◌≡◌, ◌≢◌, ◌∙◌, sym, refl, ap, subst, inl, inr, Bool, true, false, Option, none, some, String,
  str_eq, str_eq_self, not_str_eq, ok, if◌then◌else◌, if_true, if_false, ◌⊎◌,
}
use rust_basics.Valkey.{View, write, Server, IsServer, Json}
use rust_basics.Valkey.Laws.{Decoded}
use rust_basics.Tasks.Domain.{Task}
use rust_basics.Tasks.Store.{index_key, task_key, create, get, delete}
use rust_basics.Tasks.Store.Keys.{str_eq-task_key, index-ne-task_key}
use rust_basics.Tasks.Store.Laws.{stored, removed, create_lem, get_task_lem, delete_lem}

-- Whether an id is in the index, and the text that is kept for it.
abbrev pub indexed : View → String → Bool
indexed v id = v.member index_key id

abbrev pub kept : View → String → Option String
kept v id = v.text (task_key id)

pub kept-write :
    (id j : String) (o : Option String) (v : View)
    → kept (write (task_key id) o v) j ≡ (if str_eq id j then o else kept v j)
kept-write id j o v = rw (str_eq-task_key id j) refl

pub indexed-write :
    (id j : String) (o : Option String) (v : View)
    → indexed (write (task_key id) o v) j ≡ indexed v j
indexed-write id j o v =
    rw (not_str_eq (task_key id) index_key (λ e. index-ne-task_key id (sym e))) refl

pub stored_lem :
    (task : Task) (raw j : String) (v : View)
    → (kept (stored task raw v) j ≡ (if str_eq task.id j then some raw else kept v j))
      × (indexed (stored task raw v) j ≡ (if str_eq task.id j then true else indexed v j))
stored_lem task raw j v = (
  kept-write task.id j (some raw) v,
  rw (str_eq_self index_key, indexed-write task.id j (some raw) v) refl,
)

pub removed_lem :
    (id j : String) (v : View)
    → (kept (removed id v) j ≡ (if str_eq id j then none else kept v j))
      × (indexed (removed id v) j ≡ (if str_eq id j then false else indexed v j))
removed_lem id j v = (kept-write id j none v, rw (indexed-write id j none v) refl)

module _ (r : Server) (law : IsServer r) (json : Json Task) where
  open r use {S}
  open law use {view}

  reads_back :
      (raw : String) (task : Task) (t : Option Task)
      → Json.from_str json raw ≡ ok task
      → Decoded r law json (some raw) t
      → t ≡ some task
  reads_back raw task none reads d = absurd d
  reads_back raw task (some u) reads d = cc

  Decoded-none : (t : Option Task) → Decoded r law json none t → t ≡ none
  Decoded-none none d = refl
  Decoded-none (some u) d = absurd d

  -- After a `create` that succeeds: a `get` of its id that succeeds finds the task itself, its id is
  -- in the index, and for every other id the text and the index are what they were.
  pub create-get :
      (task : Task) (s : S)
      → (create r json task s).1 ≡ ok tt
      → let after = (create r json task s).0 in
        ((t : Option Task) → (get r json task.id after).1 ≡ ok t → t ≡ some task)
        × (indexed (view after) task.id ≡ true)
        × ((j : String)
            → task.id ≢ j
            → (kept (view after) j ≡ kept (view s) j)
              × (indexed (view after) j ≡ indexed (view s) j))
  create-get task s h =
      let (raw, reads, after) = create_lem r law json task s h in
      let own = stored_lem task raw task.id (view s) in
      let text = ap (λ v. kept v task.id) after ∙ own.0 ∙ if_true _ (str_eq_self task.id) in
      (
        λ t e.
            reads_back raw task t reads
              (subst (λ o. Decoded r law json o t) text (get_task_lem r law json task.id _ t e).0),
        ap (λ v. indexed v task.id) after ∙ own.1 ∙ if_true _ (str_eq_self task.id),
        λ j apart.
            let other = stored_lem task raw j (view s) in
            let no = not_str_eq task.id j apart in
            (
              ap (λ v. kept v j) after ∙ other.0 ∙ if_false _ no,
              ap (λ v. indexed v j) after ∙ other.1 ∙ if_false _ no,
            ),
      )

  -- A `delete` that succeeds answers whether the task was there. Where it answers true, a `get` of the
  -- id that succeeds finds nothing, the id is out of the index, and every other id keeps its text
  -- and its place; where it answers false, no text was kept for the id and the contents do not change.
  pub delete-get :
      (id : String) (s : S) (b : Bool)
      → (delete r json id s).1 ≡ ok b
      → let after = (delete r json id s).0 in
        ((b ≡ true)
          × ((t : Option Task) → (get r json id after).1 ≡ ok t → t ≡ none)
          × (indexed (view after) id ≡ false)
          × ((j : String)
              → id ≢ j
              → (kept (view after) j ≡ kept (view s) j)
                × (indexed (view after) j ≡ indexed (view s) j)))
        ⊎ ((b ≡ false) × (kept (view s) id ≡ none) × (view after ≡ view s))
  delete-get id s b h = elim (delete_lem r law json id s b h) [
    | inr unchanged ↦ inr unchanged
    | inl (found, after) ↦
        let own = removed_lem id id (view s) in
        inl (
          found,
          λ t e. Decoded-none t (
              subst (λ o. Decoded r law json o t)
                (ap (λ v. kept v id) after ∙ own.0 ∙ if_true _ (str_eq_self id))
                (get_task_lem r law json id _ t e).0),
          ap (λ v. indexed v id) after ∙ own.1 ∙ if_true _ (str_eq_self id),
          λ j apart.
              let other = removed_lem id j (view s) in
              let no = not_str_eq id j apart in
              (
                ap (λ v. kept v j) after ∙ other.0 ∙ if_false _ no,
                ap (λ v. indexed v j) after ∙ other.1 ∙ if_false _ no,
              ),
        )
  ]
