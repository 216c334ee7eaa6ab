-- ===== src/Tasks/Store/Listing.antt =====
-- What `list` answers.
use mathlib.Core.Option.{none-ne-some}
use rust_basics.Prelude.{
  ◌≡◌, ◌∙◌, refl, Bool, false≢true, sym, ap, subst, ◌↔◌, ◌⊎◌, inl, inr, true, false, ◌||◌, Option,
  none, some, List, [], ◌∷◌, String, str_eq, eq_iff, str_eq_self, ok, ok-inj, Bool-cases, arith,
}
use rust_basics.Valkey.{
  View, Server, IsServer, Json, return, ◌>>=◌, >>=-ok, elem, set_members, get_json,
}
use rust_basics.Valkey.Laws.{Decoded, set_members_lem, get_json_lem}
use rust_basics.Tasks.Domain.{Task}
use rust_basics.Tasks.Store.{index_key, task_key, keep, sort_tasks, collect, list}
use rust_basics.Tasks.Store.Contents.{indexed, kept}
use rust_basics.Tasks.Store.Sorting.{Has, Newest, Has-sort_tasks, sort_tasks-Newest}

or_true : (a : Bool) {b : Bool} → b ≡ true → (a || b) ≡ true
or_true a e = ground arith

or_false : {a b : Bool} → a ≡ false → (a || b) ≡ true → b ≡ true
or_false e h = ground arith

either_iff : {A B C D : Type 0} → A ↔ (B ⊎ C) → C ↔ D → A ↔ (B ⊎ D)
either_iff f g = (
  λ a. elim (f.0 a) [ inl b ↦ inl b | inr c ↦ inr (g.0 c) ],
  λ h. elim h [ inl b ↦ f.1 (inl b) | inr d ↦ f.1 (inr (g.1 d)) ],
)

pub iff_trans : {A B C : Type 0} → A ↔ B → B ↔ C → A ↔ C
iff_trans f g = (λ a. g.0 (f.0 a), λ c. f.1 (g.1 c))

module _ (r : Server) (law : IsServer r) (json : Json Task) where
  open r use {S}
  open law use {view}

  -- The text that is kept for the id decodes to the task.
  abbrev pub Holds : View → String → Task → Type 0
  Holds v id t = (raw : String) × (kept v id ≡ some raw) × (Json.from_str json raw ≡ ok t)

  -- The task is kept under an id of the index.
  abbrev pub Listed : View → Task → Type 0
  Listed v t = (id : String) × (indexed v id ≡ true) × Holds v id t

  abbrev HoldsAny : View → List String → Task → Type 0
  HoldsAny v [] t = ⊥
  HoldsAny v (id ∷ ids) t = Holds v id t ⊎ HoldsAny v ids t

  same_task :
      (raw raw' : String) (t x : Task)
      → Json.from_str json raw ≡ ok t
      → ◌≡◌ {A = Option String} (some raw) (some raw')
      → Json.from_str json raw' ≡ ok x
      → t ≡ x
  same_task raw raw' t x d e f = cc

  keep_lem :
      (o : Option String) (t : Option Task) (tasks : List Task) (x : Task)
      → Decoded r law json o t
      → Has x (keep r json t tasks)
        ↔ (((raw : String) × (o ≡ some raw) × (Json.from_str json raw ≡ ok x)) ⊎ Has x tasks)
  keep_lem none none tasks x d =
      (λ h. inr h, λ h. elim h [ inl (raw, e, _) ↦ absurd (none-ne-some raw e) | inr k ↦ k ])
  keep_lem none (some t) tasks x d = absurd d
  keep_lem (some raw) none tasks x d = absurd d
  keep_lem (some raw) (some t) tasks x d = (
    λ h. elim h [ inl e ↦ inl (raw, refl, d ∙ ap ok e) | inr k ↦ inr k ],
    λ h. elim h [ inl (raw', e, f) ↦ inl (same_task raw raw' t x d e f) | inr k ↦ inr k ],
  )

  Has-keep :
      (v : View) (id : String) (t : Option Task) (tasks : List Task) (x : Task)
      → Decoded r law json (kept v id) t
      → Has x (keep r json t tasks) ↔ (Holds v id x ⊎ Has x tasks)
  Has-keep v id t tasks x d = keep_lem (kept v id) t tasks x d

  collect_lem :
      (ids : List String) (s : S) (tasks : List Task)
      → (collect r json ids s).1 ≡ ok tasks
      → ((x : Task) → Has x tasks ↔ HoldsAny (view s) ids x)
        × (view (collect r json ids s).0 ≡ view s)
  unfolding collect
  collect_lem [] s tasks h = (λ x. subst (λ l. Has x l ↔ ⊥) (ok-inj h) (λ n. n, λ n. n), refl)
  collect_lem (id ∷ ids) s tasks h =
      let (t, e, rest, q) =
        >>=-ok (get_json r json (task_key id))
          (λ t. collect r json ids >>= λ more. return (keep r json t more)) s h in
      let (found, seen) = get_json_lem r law json (task_key id) s t e in
      let (more, f, last, p) =
        >>=-ok (collect r json ids) (λ more. return (keep r json t more))
          (get_json r json (task_key id) s).0 rest in
      let (ih, kept_) = collect_lem ids (get_json r json (task_key id) s).0 more f in
      (
        λ x.
            subst (λ l. Has x l ↔ HoldsAny (view s) (id ∷ ids) x) (ok-inj last)
              (either_iff (Has-keep (view s) id t more x found)
                (subst (λ v. Has x more ↔ HoldsAny v ids x) seen (ih x))),
        rw (q, p) (kept_ ∙ seen),
      )

  HoldsAny-elem :
      (v : View) (ids : List String) (x : Task)
      → HoldsAny v ids x ↔ ((id : String) × (elem id ids ≡ true) × Holds v id x)
  HoldsAny-elem v [] x = (λ h. absurd h, λ h. false≢true h.1)
  HoldsAny-elem v (j ∷ ids) x =
      let ih = HoldsAny-elem v ids x in
      (
        λ h. elim h [
          | inl holds ↦ (j, rw (str_eq_self j) refl, holds)
          | inr any ↦ ((ih.0 any).0, or_true (str_eq j (ih.0 any).0) (ih.0 any).1, (ih.0 any).2)
        ],
        λ h. elim (Bool-cases (str_eq j h.0)) [
          | inl same ↦ inl (subst (λ k. Holds v k x) (sym ((eq_iff j h.0).0 same)) h.2)
          | inr apart ↦ inr (ih.1 (h.0, or_false apart h.1, h.2))
        ],
      )

  -- A `list` that succeeds answers with the tasks, newest first, that are kept in the texts of the
  -- ids in the index: a task is in the answer exactly when an indexed id's text decodes to it. The
  -- contents do not change.
  pub list-Newest :
      (s : S) (tasks : List Task)
      → (list r json s).1 ≡ ok tasks
      → Newest tasks
        × ((x : Task) → Has x tasks ↔ Listed (view s) x)
        × (view (list r json s).0 ≡ view s)
  unfolding list
  list-Newest s tasks h =
      let (ids, e, rest, q) =
        >>=-ok (set_members r index_key)
          (λ ids. collect r json ids >>= λ found. return (sort_tasks found)) s h in
      let (members, seen) = set_members_lem r law index_key s ids e in
      let (found, f, last, p) =
        >>=-ok (collect r json ids) (λ found. return (sort_tasks found))
          (set_members r index_key s).0 rest in
      let (holds, kept_) = collect_lem ids (set_members r index_key s).0 found f in
      (
        subst Newest (ok-inj last) (sort_tasks-Newest found),
        λ x.
            subst (λ l. Has x l ↔ Listed (view s) x) (ok-inj last)
              (iff_trans (Has-sort_tasks x found) (
                iff_trans (subst (λ v. Has x found ↔ HoldsAny v ids x) seen (holds x)) (
                  iff_trans (HoldsAny-elem (view s) ids x) (
                    λ h. (h.0, sym (members h.0) ∙ h.1, h.2),
                    λ h. (h.0, members h.0 ∙ h.1, h.2),
                  )))),
        rw (q, p) (kept_ ∙ seen),
      )
