-- ===== src/Tasks/Store/Spec/Entries.antt =====
-- What one operation of the store does to contents that represent a map.
use mathlib.Core.Option.{none-ne-some}
use rust_basics.Prelude.{
  ◌≡◌, ◌∙◌, refl, sym, ap, subst, ◌↔◌, inl, inr, true, Option, none, some, String, str_eq, eq_iff,
  ok, Bool-cases, false≢true, if_true, if_false,
}
use rust_basics.Valkey.{View, Server, IsServer, Json}
use rust_basics.Valkey.Laws.{Decoded}
use rust_basics.Tasks.Domain.{Task}
use rust_basics.Tasks.Store.Contents.{indexed, kept, stored_lem, removed_lem}
use rust_basics.Tasks.Store.Laws.{stored, removed}
use rust_basics.Tasks.Store.Listing.{Listed, Holds}
use rust_basics.Tasks.Store.Spec.{TaskMap, update, Entry, Represents}

module _ (r : Server) (law : IsServer r) (json : Json Task) where
  open r use {S}
  open law use {view}

  Entry-eq :
      (v w : View) (id : String) (o : Option Task)
      → kept w id ≡ kept v id
      → indexed w id ≡ indexed v id
      → Entry r law json v id o
      → Entry r law json w id o
  Entry-eq v w id none p q (a, b) = (p ∙ a, q ∙ b)
  Entry-eq v w id (some t) p q (raw, a, b, c) = (raw, p ∙ a, b, q ∙ c)

  pub stored-Represents :
      (t : Task) (raw : String) (v : View) (m : TaskMap)
      → Json.from_str json raw ≡ ok t
      → Represents r law json v m
      → Represents r law json (stored t raw v) (update t.id (some t) m)
  stored-Represents t raw v m reads h id =
      let (text, index) = stored_lem t raw id v in
      elim (Bool-cases (str_eq t.id id)) [
        | inl e ↦
            subst (Entry r law json (stored t raw v) id) (sym (if_true _ e))
              (raw, text ∙ if_true _ e, reads, index ∙ if_true _ e)
        | inr e ↦ subst (Entry r law json (stored t raw v) id) (sym (if_false _ e)) (
            Entry-eq v (stored t raw v) id (m id) (text ∙ if_false _ e) (index ∙ if_false _ e)
              (h id))
      ]

  pub removed-Represents :
      (gone : String) (v : View) (m : TaskMap)
      → Represents r law json v m
      → Represents r law json (removed gone v) (update gone none m)
  removed-Represents gone v m h id =
      let (text, index) = removed_lem gone id v in
      elim (Bool-cases (str_eq gone id)) [
        | inl e ↦
            subst (Entry r law json (removed gone v) id) (sym (if_true _ e))
              (text ∙ if_true _ e, index ∙ if_true _ e)
        | inr e ↦ subst (Entry r law json (removed gone v) id) (sym (if_false _ e)) (
            Entry-eq v (removed gone v) id (m id) (text ∙ if_false _ e) (index ∙ if_false _ e)
              (h id))
      ]

  pub Decoded-none :
      (k : Option String) (t : Option Task) → k ≡ none → Decoded r law json k t → t ≡ none
  Decoded-none none none e d = refl
  Decoded-none none (some t) e d = absurd d
  Decoded-none (some raw) t e d = cc

  pub Decoded-some :
      (k : Option String) (t : Option Task) (raw : String) (u : Task)
      → k ≡ some raw
      → Json.from_str json raw ≡ ok u
      → Decoded r law json k t
      → t ≡ some u
  Decoded-some none t raw u e f d = cc
  Decoded-some (some text) none raw u e f d = absurd d
  Decoded-some (some text) (some t) raw u e f d = cc

  -- What a read decodes is the map's task.
  pub got_lem :
      (v : View) (id : String) (o t : Option Task)
      → Entry r law json v id o
      → Decoded r law json (kept v id) t
      → t ≡ o
  got_lem v id none t e d = Decoded-none (kept v id) t e.0 d
  got_lem v id (some u) t (raw, text, reads, _) d = Decoded-some (kept v id) t raw u text reads d

  -- What is indexed and decodes is the map's task.
  listed_lem :
      (v : View) (id : String) (o : Option Task) (x : Task)
      → Entry r law json v id o
      → ((indexed v id ≡ true) × Holds r law json v id x) ↔ (o ≡ some x)
  listed_lem v id none x (text, index) =
      (λ h. absurd (false≢true (sym index ∙ h.0)), λ h. absurd (none-ne-some x h))
  listed_lem v id (some t) x (raw, text, reads, index) =
      (λ h. same_task raw t x text reads h.1, λ h. (index, (raw, text, reads ∙ ap ok (some-inj h))))
    where
      some-inj : some t ≡ some x → t ≡ x
      some-inj e = cc

      same_task :
          (raw : String) (t x : Task)
          → kept v id ≡ some raw
          → Json.from_str json raw ≡ ok t
          → Holds r law json v id x
          → some t ≡ some x
      same_task raw t x text reads (other, text', reads') = cc

  pub Listed-iff :
      (v : View) (m : TaskMap) (x : Task)
      → Represents r law json v m
      → Listed r law json v x ↔ ((id : String) × (m id ≡ some x))
  Listed-iff v m x h = (
    λ (id, index, holds). (id, (listed_lem v id (m id) x (h id)).0 (index, holds)),
    λ (id, e).
        (id, ((listed_lem v id (m id) x (h id)).1 e).0, ((listed_lem v id (m id) x (h id)).1 e).1),
  )

  pub Entry-none :
      (v : View) (id : String) (o : Option Task)
      → Entry r law json v id o
      → kept v id ≡ none
      → o ≡ none
  Entry-none v id none e k = refl
  Entry-none v id (some t) (raw, text, _, _) k = absurd (none-ne-some raw (sym k ∙ text))

  pub absent-Represents :
      (v : View) (m : TaskMap) (id : String)
      → m id ≡ none
      → Represents r law json v m
      → Represents r law json v (update id none m)
  absent-Represents v m id absent h j = elim (Bool-cases (str_eq id j)) [
    | inl e ↦ subst (Entry r law json v j) (sym (if_true _ e)) (
        subst (λ k. Entry r law json v k none) ((eq_iff id j).0 e)
          (subst (Entry r law json v id) absent (h id)))
    | inr e ↦ subst (Entry r law json v j) (sym (if_false _ e)) (h j)
  ]
