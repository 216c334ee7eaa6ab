-- ===== src/Tasks/Store/Faults/Runs.antt =====
-- Runs of the store's operations while the server fails as it will.
use rust_basics.Prelude.{
  ◌≡◌, ◌∙◌, refl, sym, ap, subst, ◌↔◌, ◌⊎◌, inl, inr, Bool, true, false, Option, none, some, List,
  [], ◌∷◌, String, ok,
}
use rust_basics.Monad.{return, >>=-cases}
use rust_basics.Valkey.{View, write, Server, IsServer, Json}
use rust_basics.Valkey.Laws.{Decoded}
use rust_basics.Valkey.Atomic.{IsAtomic}
use rust_basics.Tasks.Domain.{Task}
use rust_basics.Tasks.Store as Store
use rust_basics.Tasks.Store.{task_key}
use rust_basics.Tasks.Store.Contents.{kept}
use rust_basics.Tasks.Store.Laws.{removed, create_lem, get_task_lem, delete_lem}
use rust_basics.Tasks.Store.Listing.{Holds, Listed, iff_trans, list-Newest}
use rust_basics.Tasks.Store.Sorting.{Has, Newest}
use rust_basics.Tasks.Store.Spec.{
  Op, create, get, delete, list, created, got, deleted, listed, is_there, perform,
}
use rust_basics.Tasks.Store.Spec.Entries.{Decoded-none, Decoded-some}
use rust_basics.Tasks.Store.Spec.Deletion.{delete-get_first}
use rust_basics.Tasks.Store.Faults.{
  Shelf, put, set_index, delete_from, Possible, Trace, run_on, Text, Fits,
}
use rust_basics.Tasks.Store.Faults.Fits.{Fits-write, Fits-add_member, Fits-remove_member}
use rust_basics.Tasks.Store.Faults.Cut.{create-FitsPartly, get_kept, delete-FitsPartly, list_kept}

module _ (r : Server) (law : IsServer r) (json : Json Task) where
  open r use {S}
  open law use {view}

  Text-got :
      (k : Option String) (o t : Option Task) → Text r law json k o → Decoded r law json k t → t ≡ o
  Text-got k none t e d = Decoded-none r law json k t e d
  Text-got k (some u) t (raw, e, reads) d = Decoded-some r law json k t raw u e reads d

  deleted-Fits :
      (id : String) (o : Option Task) (b : Bool) (v w : View) (s : Shelf)
      → b ≡ is_there o
      → Fits r law json v s
      → ((b ≡ true) × (w ≡ removed id v)) ⊎ ((b ≡ false) × (kept v id ≡ none) × (w ≡ v))
      → Fits r law json w (delete_from o id s)
  deleted-Fits id none b v w s e fits (inl (t, _)) = cc
  deleted-Fits id none b v w s e fits (inr (_, _, same)) =
      subst (λ w. Fits r law json w s) (sym same) fits
  deleted-Fits id (some t) b v w s e fits (inr (f, _, _)) = cc
  deleted-Fits id (some t) b v w s e fits (inl (_, same)) =
      let gone = Fits-write r law json id none none v s refl fits in
      subst (λ w. Fits r law json w (set_index id false (put id none s))) (sym same)
        (Fits-remove_member r law json id (write (task_key id) none v) (put id none s) gone)

  Holds-iff :
      (v : View) (id : String) (o : Option Task) (x : Task)
      → Text r law json (kept v id) o
      → Holds r law json v id x ↔ (o ≡ some x)
  Holds-iff v id none x e = (λ (raw, k, _). cc, λ f. cc)
  Holds-iff v id (some t) x (raw, k, reads) =
      (λ (other, k', reads'). cc, λ f. (raw, k, reads ∙ ap ok (some-inj f)))
    where
      some-inj : some t ≡ some x → t ≡ x
      some-inj e = cc

  Listed-iff :
      (v : View) (s : Shelf) (x : Task)
      → Fits r law json v s
      → Listed r law json v x ↔ ((id : String) × (s.index id ≡ true) × (s.tasks id ≡ some x))
  Listed-iff v s x fits = (
    λ (id, i, h). (id, sym (fits id).1 ∙ i, (Holds-iff v id (s.tasks id) x (fits id).0).0 h),
    λ (id, i, h). (id, (fits id).1 ∙ i, (Holds-iff v id (s.tasks id) x (fits id).0).1 h),
  )

  pub create-Fits :
      (t : Task) (x : S) (s : Shelf)
      → Fits r law json (view x) s
      → (Store.create r json t x).1 ≡ ok tt
      → Fits r law json
          (view (Store.create r json t x).0)
          (set_index t.id true (put t.id (some t) s))
  create-Fits t x s fits wrote =
      let (raw, reads, same) = create_lem r law json t x wrote in
      let v' = write (task_key t.id) (some raw) (view x) in
      let put_there =
        Fits-write r law json t.id (some raw) (some t) (view x) s (raw, refl, reads) fits in
      let s' = set_index t.id true (put t.id (some t) s) in
      subst (λ w. Fits r law json w s') (sym same)
        (Fits-add_member r law json t.id v' (put t.id (some t) s) put_there)

  -- A read that is answered finds what the map has.
  pub get-Fits :
      (id : String) (x : S) (s : Shelf) (t : Option Task)
      → Fits r law json (view x) s
      → (Store.get r json id x).1 ≡ ok t
      → t ≡ s.tasks id
  get-Fits id x s t fits found =
      let (decoded, _) = get_task_lem r law json id x t found in
      Text-got (kept (view x) id) (s.tasks id) t (fits id).0 decoded

  pub delete-Fits :
      (id : String) (x : S) (s : Shelf) (b : Bool)
      → Fits r law json (view x) s
      → (Store.delete r json id x).1 ≡ ok b
      → (b ≡ is_there (s.tasks id))
        × Fits r law json (view (Store.delete r json id x).0) (delete_from (s.tasks id) id s)
  delete-Fits id x s b fits done =
      let (t, found, answer) = delete-get_first r law json id x b done in
      let there = answer ∙ ap is_there (get-Fits id x s t fits found) in
      (
        there,
        deleted-Fits id (s.tasks id) b (view x) _ s there fits (delete_lem r law json id x b done),
      )

  -- A listing has the tasks of the ids in the index.
  pub list-Fits :
      (x : S) (s : Shelf) (ts : List Task)
      → Fits r law json (view x) s
      → (Store.list r json x).1 ≡ ok ts
      → Newest ts
        × ((y : Task) → Has y ts ↔ ((id : String) × (s.index id ≡ true) × (s.tasks id ≡ some y)))
  list-Fits x s ts fits found =
      let (newest, has, _) = list-Newest r law json x ts found in
      (newest, λ y. iff_trans (has y) (Listed-iff (view x) s y fits))

  module _ (atomic : IsAtomic r law) where
    -- What one operation is answered, and what it leaves.
    pub perform-Possible :
        (op : Op) (x : S) (s : Shelf)
        → Fits r law json (view x) s
        → (s' : Shelf) × Possible op (perform r json op x).1 s s'
          × Fits r law json (view (perform r json op x).0) s'
    perform-Possible (create t) x s fits =
        elim (>>=-cases (Store.create r json t) (λ _. return created) x) [
          | inr (e, _, q) ↦ rw q (create-FitsPartly r law atomic json t x s fits)
          | inl (_, wrote, q) ↦ rw q (_, (refl, refl), create-Fits t x s fits wrote)
        ]
    perform-Possible (get id) x s fits =
        let fits' = subst (λ w. Fits r law json w s) (sym (get_kept r law atomic json id x)) fits in
        elim (>>=-cases (Store.get r json id) (λ t. return (got t)) x) [
          | inr (e, _, q) ↦ rw q (s, refl, fits')
          | inl (t, found, q) ↦ rw q (s, (ap got (get-Fits id x s t fits found), refl), fits')
        ]
    perform-Possible (delete id) x s fits =
        elim (>>=-cases (Store.delete r json id) (λ b. return (deleted b)) x) [
          | inr (e, _, q) ↦ rw q (delete-FitsPartly r law atomic json id x s fits)
          | inl (b, done, q) ↦
              let (there, fits') = delete-Fits id x s b fits done in
              rw q (delete_from (s.tasks id) id s, (ap deleted there, refl), fits')
        ]
    perform-Possible list x s fits =
        let fits' = subst (λ w. Fits r law json w s) (sym (list_kept r law atomic json x)) fits in
        elim (>>=-cases (Store.list r json) (λ ts. return (listed ts)) x) [
          | inr (e, _, q) ↦ rw q (s, refl, fits')
          | inl (ts, found, q) ↦
              let (newest, has) = list-Fits x s ts fits found in
              rw q (s, ((ts, refl, newest, has), refl), fits')
        ]

    -- Whatever commands the server fails at, before it runs them or after: creations, reads,
    -- deletions and listings, each tried whatever became of those before it, are answered, step by
    -- step, as a map of ids to tasks and an index of ids allow, which an operation that fails leaves
    -- as they were, changes as it should, or changes by half: a creation then has the task without
    -- its place in the index, a deletion the place without the task. The contents fit the map and
    -- the index at the start, and then at the end.
    pub run_on-Trace :
        (ops : List Op) (x : S) (s : Shelf)
        → Fits r law json (view x) s
        → (s' : Shelf) × Trace ops (run_on r json ops x).1 s s'
          × Fits r law json (view (run_on r json ops x).0) s'
    unfolding run_on
    run_on-Trace [] x s fits = (s, refl, fits)
    run_on-Trace (op ∷ ops) x s fits =
        let (mid, possible, fits') = perform-Possible op x s fits in
        let (s', trace, last) = run_on-Trace ops (perform r json op x).0 mid fits' in
        (s', (mid, possible, trace), last)
