-- ===== src/Tasks/Store/Spec/Deletion.antt =====
-- What a deletion answers, and what it does to contents that represent a map.
use rust_basics.Prelude.{
  ◌≡◌, ◌∙◌, sym, ap, subst, inl, inr, Bool, true, Option, none, some, String, ok, ok-inj,
}
use rust_basics.Valkey.{Server, IsServer, Json, return, ◌>>◌, >>=-ok, del, set_remove}
use rust_basics.Tasks.Domain.{Task}
use rust_basics.Tasks.Store as Store
use rust_basics.Tasks.Store.{index_key, task_key, delete_existing}
use rust_basics.Tasks.Store.Laws.{get_task_lem, delete_lem}
use rust_basics.Tasks.Store.Spec.{TaskMap, update, is_there, Entry, Represents}
use rust_basics.Tasks.Store.Spec.Entries.{
  got_lem, removed-Represents, absent-Represents, Entry-none,
}

module _ (r : Server) (law : IsServer r) (json : Json Task) where
  open r use {S}
  open law use {view}

  delete_existing-is_there :
      (id : String) (t : Option Task) (s : S) (b : Bool)
      → (delete_existing r json id t s).1 ≡ ok b
      → b ≡ is_there t
  unfolding delete_existing
  delete_existing-is_there id none s b e = sym (ok-inj e)
  delete_existing-is_there id (some t) s b e =
      let (_, _, rest, _) =
        >>=-ok (del r (task_key id)) (λ _. set_remove r index_key id >> return true) s e in
      let (_, _, last, _) =
        >>=-ok (set_remove r index_key id) (λ _. return true) (del r (task_key id) s).0 rest in
      sym (ok-inj last)

  -- A deletion answers whether its own read found the task.
  pub delete-get_first :
      (id : String) (s : S) (b : Bool)
      → (Store.delete r json id s).1 ≡ ok b
      → (t : Option Task) × ((Store.get r json id s).1 ≡ ok t) × (b ≡ is_there t)
  unfolding Store.delete
  delete-get_first id s b e =
      let (t, found, rest, _) = >>=-ok (Store.get r json id) (delete_existing r json id) s e in
      (t, found, delete_existing-is_there id t (Store.get r json id s).0 b rest)

  -- A deletion answers whether the map has the id.
  pub delete-is_there :
      (id : String) (s : S) (b : Bool) (o : Option Task)
      → Entry r law json (view s) id o
      → (Store.delete r json id s).1 ≡ ok b
      → b ≡ is_there o
  delete-is_there id s b o entry e =
      let (t, found, answer) = delete-get_first id s b e in
      let (decoded, _) = get_task_lem r law json id s t found in
      answer ∙ ap is_there (got_lem r law json (view s) id o t entry decoded)

  pub delete-Represents :
      (id : String) (s : S) (b : Bool) (m : TaskMap)
      → Represents r law json (view s) m
      → (Store.delete r json id s).1 ≡ ok b
      → Represents r law json (view (Store.delete r json id s).0) (update id none m)
  delete-Represents id s b m h e = elim (delete_lem r law json id s b e) [
    | inl (_, kept_now) ↦
        subst (λ w. Represents r law json w (update id none m)) (sym kept_now)
          (removed-Represents r law json id (view s) m h)
    | inr (_, absent, kept_now) ↦
        subst (λ w. Represents r law json w (update id none m)) (sym kept_now)
          (absent-Represents r law json (view s) m id
            (Entry-none r law json (view s) id (m id) (h id) absent) h)
  ]
