-- ===== src/Tasks/Store/Laws.antt =====
-- What the store's operations do to the server's contents, when they succeed.
use rust_basics.Prelude.{
  ◌≡◌, ◌∙◌, sym, refl, ap, subst, inl, inr, Bool, true, false, Option, none, some, String, ok,
  arith, ◌⊎◌,
}
use rust_basics.Valkey.{
  View, write, add_member, remove_member, Server, IsServer, Json, return, ◌>>◌, >>=-ok, set_json,
  set_add, set_remove, del,
}
use rust_basics.Valkey.Laws.{
  del_lem, set_add_lem, set_remove_lem, Decoded, set_json_lem, get_json_lem,
}
use rust_basics.Tasks.Domain.{Task}
use rust_basics.Tasks.Store.{index_key, task_key, create, get, delete, delete_existing}

-- The contents after `create`.
abbrev pub stored : Task → String → View → View
stored task raw v = add_member index_key task.id (write (task_key task.id) (some raw) v)

-- The contents after a `delete` that finds the task.
abbrev pub removed : String → View → View
removed id v = remove_member index_key id (write (task_key id) none v)

module _ (r : Server) (law : IsServer r) (json : Json Task) where
  open r use {S}
  open law use {view}

  pub create_lem :
      (task : Task) (s : S)
      → (create r json task s).1 ≡ ok tt
      → (raw : String) × (Json.from_str json raw ≡ ok task)
        × (view (create r json task s).0 ≡ stored task raw (view s))
  unfolding create
  create_lem task s h =
      let (_, wrote, added, q) =
        >>=-ok (set_json r json (task_key task.id) task none) (λ _. set_add r index_key task.id) s
          h in
      let (raw, reads, put) = set_json_lem r law json (task_key task.id) task s wrote in
      (
        raw,
        reads,
        rw q (set_add_lem r law index_key task.id _ added ∙ ap (add_member index_key task.id) put),
      )

  pub get_task_lem :
      (id : String) (s : S) (t : Option Task)
      → (get r json id s).1 ≡ ok t
      → Decoded r law json (View.text (view s) (task_key id)) t
        × (view (get r json id s).0 ≡ view s)
  unfolding get
  get_task_lem id s t h = get_json_lem r law json (task_key id) s t h

  Decoded-none : (o : Option String) → Decoded r law json o none → o ≡ none
  Decoded-none none d = refl
  Decoded-none (some raw) d = absurd d

  delete_existing_lem :
      (id : String) (t : Option Task) (s : S) (b : Bool)
      → Decoded r law json (View.text (view s) (task_key id)) t
      → (delete_existing r json id t s).1 ≡ ok b
      → let after = view (delete_existing r json id t s).0 in
        ((b ≡ true) × (after ≡ removed id (view s)))
        ⊎ ((b ≡ false) × (View.text (view s) (task_key id) ≡ none) × (after ≡ view s))
  unfolding delete_existing
  delete_existing_lem id none s b d h = inr (ground arith, Decoded-none _ d, refl)
  delete_existing_lem id (some t) s b d h =
      let (_, gone, rest, q) =
        >>=-ok (del r (task_key id)) (λ _. set_remove r index_key id >> return true) s h in
      let (_, out, last, p) =
        >>=-ok (set_remove r index_key id) (λ _. return true) (del r (task_key id) s).0 rest in
      inl (
        ground arith,
        rw (q, p)
            (set_remove_lem r law index_key id _ out
              ∙ ap (remove_member index_key id) (del_lem r law (task_key id) s gone)),
      )

  pub delete_lem :
      (id : String) (s : S) (b : Bool)
      → (delete r json id s).1 ≡ ok b
      → let after = view (delete r json id s).0 in
        ((b ≡ true) × (after ≡ removed id (view s)))
        ⊎ ((b ≡ false) × (View.text (view s) (task_key id) ≡ none) × (after ≡ view s))
  unfolding delete
  delete_lem id s b h =
      let (t, e, rest, q) = >>=-ok (get r json id) (delete_existing r json id) s h in
      let got = get_task_lem id s t e in
      let seen =
        delete_existing_lem id t (get r json id s).0 b
          (subst (λ v. Decoded r law json (View.text v (task_key id)) t) (sym got.1) got.0) rest in
      rw (q, sym got.1) seen
