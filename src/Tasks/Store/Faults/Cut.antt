-- ===== src/Tasks/Store/Faults/Cut.antt =====
-- What an operation of the store leaves, wherever it is cut off.
use rust_basics.Prelude.{
  ◌≡◌, ◌∙◌, refl, sym, ap, subst, inl, inr, Bool, true, false, Option, none, some, List, [], ◌∷◌,
  String, ok,
}
use rust_basics.Monad.{return, ◌>>◌, ◌>>=◌, >>=-cases}
use rust_basics.Valkey.{
  View, write, add_member, remove_member, Server, IsServer, Json, set_json, set_add, set_remove,
  set_members, get_json, del,
}
use rust_basics.Valkey.Atomic.{
  IsAtomic, set_json_either, set_add_either, set_remove_either, del_either, get_json_kept,
  set_members_kept,
}
use rust_basics.Valkey.Laws.{set_json_lem, del_lem}
use rust_basics.Tasks.Domain.{Task}
use rust_basics.Tasks.Store as Store
use rust_basics.Tasks.Store.{index_key, task_key, delete_existing, collect, sort_tasks, keep}
use rust_basics.Tasks.Store.Faults.{Shelf, put, set_index, Partly, Fits}
use rust_basics.Tasks.Store.Faults.Fits.{Fits-write, Fits-add_member, Fits-remove_member}

module _ (r : Server) (law : IsServer r) (atomic : IsAtomic r law) (json : Json Task) where
  open r use {S}
  open law use {view}

  -- Contents that fit what is left of a cut-off operation.
  abbrev pub FitsPartly : String → Option Task → Bool → Shelf → View → Type 0
  FitsPartly id o b s v = (s' : Shelf) × Partly id o b s s' × Fits r law json v s'

  untouched :
      (id : String) (o : Option Task) (b : Bool) (s : Shelf) (v w : View)
      → Fits r law json v s
      → w ≡ v
      → FitsPartly id o b s w
  untouched id o b s v w fits same = (s, inl refl, subst (λ w. Fits r law json w s) (sym same) fits)

  halfway :
      (id : String) (o : Option Task) (b : Bool) (s : Shelf) (v w : View)
      → Fits r law json v (put id o s)
      → w ≡ v
      → FitsPartly id o b s w
  halfway id o b s v w fits same =
      (put id o s, inr (inl refl), subst (λ w. Fits r law json w (put id o s)) (sym same) fits)

  all_done :
      (id : String) (o : Option Task) (b : Bool) (s : Shelf) (v w : View)
      → Fits r law json v (set_index id b (put id o s))
      → w ≡ v
      → FitsPartly id o b s w
  all_done id o b s v w fits same = (
    set_index id b (put id o s),
    inr (inr refl),
    subst (λ w. Fits r law json w (set_index id b (put id o s))) (sym same) fits,
  )

  pub create-FitsPartly :
      (t : Task) (x : S) (s : Shelf)
      → Fits r law json (view x) s
      → FitsPartly t.id (some t) true s (view (Store.create r json t x).0)
  unfolding Store.create
  create-FitsPartly t x s fits =
      let first = set_json r json (task_key t.id) t none in
      let written = λ (raw : String) (reads : Json.from_str json raw ≡ ok t).
        Fits-write r law json t.id (some raw) (some t) (view x) s (raw, refl, reads) fits in
      elim (>>=-cases first (λ _. set_add r index_key t.id) x) [
        | inr (e, _, q) ↦ elim (set_json_either r law atomic json (task_key t.id) t x) [
          | inl same ↦ untouched t.id (some t) true s _ _ fits (ap (λ p. view p.0) q ∙ same)
          | inr (raw, reads, same) ↦
              halfway t.id (some t) true s _ _ (written raw reads) (ap (λ p. view p.0) q ∙ same)
        ]
        | inl (_, wrote, q) ↦
            let (raw, reads, same) = set_json_lem r law json (task_key t.id) t x wrote in
            elim (set_add_either r law atomic index_key t.id (first x).0) [
              | inl kept_now ↦
                  halfway t.id (some t) true s _ _ (written raw reads)
                    (ap (λ p. view p.0) q ∙ kept_now ∙ same)
              | inr added ↦
                  all_done t.id (some t) true s _ _
                    (Fits-add_member r law json t.id (write (task_key t.id) (some raw) (view x))
                      (put t.id (some t) s) (written raw reads))
                    (ap (λ p. view p.0) q ∙ added ∙ ap (add_member index_key t.id) same)
            ]
      ]

  delete_existing-FitsPartly :
      (id : String) (o : Option Task) (x : S) (s : Shelf)
      → Fits r law json (view x) s
      → FitsPartly id none false s (view (delete_existing r json id o x).0)
  unfolding delete_existing
  delete_existing-FitsPartly id none x s fits =
      untouched id none false s (view x) (view x) fits refl
  delete_existing-FitsPartly id (some t) x s fits =
      let gone = Fits-write r law json id none none (view x) s refl fits in
      let second = set_remove r index_key id in
      elim (>>=-cases (del r (task_key id)) (λ _. second >> return true) x) [
        | inr (e, _, q) ↦ elim (del_either r law atomic (task_key id) x) [
          | inl same ↦ untouched id none false s _ _ fits (ap (λ p. view p.0) q ∙ same)
          | inr same ↦ halfway id none false s _ _ gone (ap (λ p. view p.0) q ∙ same)
        ]
        | inl (_, deleted, q) ↦
            let same = del_lem r law (task_key id) x deleted in
            let x₁ = (del r (task_key id) x).0 in
            let q' = second_view id x₁ in
            elim (set_remove_either r law atomic index_key id x₁) [
              | inl kept_now ↦
                  halfway id none false s _ _ gone (ap (λ p. view p.0) q ∙ q' ∙ kept_now ∙ same)
              | inr out ↦
                  all_done id none false s _ _
                    (Fits-remove_member r law json id (write (task_key id) none (view x))
                      (put id none s) gone)
                    (ap (λ p. view p.0) q ∙ q' ∙ out ∙ ap (remove_member index_key id) same)
            ]
      ]
    where
      second_view :
          (id : String) (x : S)
          → view ((set_remove r index_key id >> return true) x).0
            ≡ view (set_remove r index_key id x).0
      second_view id x = elim (>>=-cases (set_remove r index_key id) (λ _. return true) x) [
        | inl (_, _, q) ↦ ap (λ p. view p.0) q
        | inr (_, _, q) ↦ ap (λ p. view p.0) q
      ]

  pub get_kept : (id : String) (x : S) → view (Store.get r json id x).0 ≡ view x
  unfolding Store.get
  get_kept id x = get_json_kept r law atomic json (task_key id) x

  pub delete-FitsPartly :
      (id : String) (x : S) (s : Shelf)
      → Fits r law json (view x) s
      → FitsPartly id none false s (view (Store.delete r json id x).0)
  unfolding Store.delete
  delete-FitsPartly id x s fits =
      let same = get_kept id x in
      elim (>>=-cases (Store.get r json id) (delete_existing r json id) x) [
        | inr (e, _, q) ↦ untouched id none false s _ _ fits (ap (λ p. view p.0) q ∙ same)
        | inl (o, _, q) ↦
            let x₁ = (Store.get r json id x).0 in
            let (s', cut, fits') =
              delete_existing-FitsPartly id o x₁ s
                (subst (λ w. Fits r law json w s) (sym same) fits) in
            (s', cut, subst (λ w. Fits r law json w s') (sym (ap (λ p. view p.0) q)) fits')
      ]

  collect_kept : (ids : List String) (x : S) → view (collect r json ids x).0 ≡ view x
  unfolding collect
  collect_kept [] x = refl
  collect_kept (id ∷ ids) x =
      let rest = λ (t : Option Task). collect r json ids >>= λ ts. return (keep r json t ts) in
      let first = get_json_kept r law atomic json (task_key id) x in
      elim (>>=-cases (get_json r json (task_key id)) rest x) [
        | inr (_, _, q) ↦ ap (λ p. view p.0) q ∙ first
        | inl (t, _, q) ↦
            let x₁ = (get_json r json (task_key id) x).0 in
            let again = collect_kept ids x₁ in
            elim (>>=-cases (collect r json ids) (λ ts. return (keep r json t ts)) x₁) [
              | inr (_, _, q') ↦ ap (λ p. view p.0) (q ∙ q') ∙ again ∙ first
              | inl (_, _, q') ↦ ap (λ p. view p.0) (q ∙ q') ∙ again ∙ first
            ]
      ]

  pub list_kept : (x : S) → view (Store.list r json x).0 ≡ view x
  unfolding Store.list
  list_kept x =
      let rest = λ (ids : List String). collect r json ids >>= λ ts. return (sort_tasks ts) in
      let first = set_members_kept r law atomic index_key x in
      elim (>>=-cases (set_members r index_key) rest x) [
        | inr (_, _, q) ↦ ap (λ p. view p.0) q ∙ first
        | inl (ids, _, q) ↦
            let x₁ = (set_members r index_key x).0 in
            let again = collect_kept ids x₁ in
            elim (>>=-cases (collect r json ids) (λ ts. return (sort_tasks ts)) x₁) [
              | inr (_, _, q') ↦ ap (λ p. view p.0) (q ∙ q') ∙ again ∙ first
              | inl (_, _, q') ↦ ap (λ p. view p.0) (q ∙ q') ∙ again ∙ first
            ]
      ]
