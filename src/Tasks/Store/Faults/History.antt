-- ===== src/Tasks/Store/Faults/History.antt =====
-- What a client can rely on while the server fails: a deletion that was answered is not undone.
use mathlib.Core.Option.{none-ne-some}
use rust_basics.Prelude.{
  ◌≡◌, ◌≢◌, ◌∙◌, refl, sym, subst, inl, inr, Bool, Option, none, some, List, [], ◌∷◌, String,
  Result, ok, err, Bool-cases, str_eq, eq_iff, str_eq_self, not_str_eq, if_true, if_false,
}
use rust_basics.Valkey.{Server, IsServer, Json}
use rust_basics.Valkey.Atomic.{IsAtomic}
use rust_basics.Tasks.Domain.{Task}
use rust_basics.Tasks.Store.Sorting.{Has}
use rust_basics.Tasks.Store.Spec.{Op, create, get, delete, list, Answer, got, listed, perform}
use rust_basics.Tasks.Store.Faults.{Shelf, put, delete_from, Partly, Possible, Trace, run_on, Fits}
use rust_basics.Tasks.Store.Faults.Runs.{perform-Possible, run_on-Trace}

-- Every task is kept under its own id.
abbrev pub Own : Shelf → Type 0
Own s = (id : String) (t : Task) → s.tasks id ≡ some t → t.id ≡ id

module _ (id : String) where
  -- The operation does not create the id.
  abbrev pub Spares : Op → Type 0
  Spares (create t) = t.id ≢ id
  Spares (get j) = Unit {0}
  Spares (delete j) = Unit {0}
  Spares list = Unit {0}

  abbrev pub AllSpare : List Op → Type 0
  AllSpare [] = Unit {0}
  AllSpare (op ∷ ops) = Spares op × AllSpare ops

  -- The answer has no task of the id.
  abbrev pub Without : Op → Result String Answer → Type 0
  Without (get j) (ok a) = j ≡ id → a ≡ got none
  Without list (ok a) =
      (tasks : List Task) → a ≡ listed tasks → (t : Task) → Has t tasks → t.id ≢ id
  Without (create t) (ok a) = Unit {0}
  Without (delete j) (ok a) = Unit {0}
  Without op (err e) = Unit {0}

  abbrev pub AllWithout : List Op → List (Result String Answer) → Type 0
  AllWithout [] [] = Unit {0}
  AllWithout [] (a ∷ answers) = ⊥
  AllWithout (op ∷ ops) [] = ⊥
  AllWithout (op ∷ ops) (a ∷ answers) = Without op a × AllWithout ops answers

  abbrev Gone : Shelf → Type 0
  Gone s = (s.tasks id ≡ none) × Own s

  some-inj {ℓ} : {A : Type ℓ} {x y : A} → some x ≡ some y → x ≡ y
  some-inj e = cc

  pub Own-put : (t : Task) (s : Shelf) → Own s → Own (put t.id (some t) s)
  Own-put t s own j u e = elim (Bool-cases (str_eq t.id j)) [
    | inl same ↦
        let it : t ≡ u = some-inj (sym (if_true _ same) ∙ e) in
        sym (λ i. (it i).id) ∙ (eq_iff t.id j).0 same
    | inr other ↦ own j u (sym (if_false _ other) ∙ e)
  ]

  Own-clear : (gone : String) (s : Shelf) → Own s → Own (put gone none s)
  Own-clear gone s own j u e = elim (Bool-cases (str_eq gone j)) [
    | inl same ↦ absurd (none-ne-some u (sym (if_true _ same) ∙ e))
    | inr other ↦ own j u (sym (if_false _ other) ∙ e)
  ]

  Gone-put : (t : Task) (s : Shelf) → t.id ≢ id → Gone s → Gone (put t.id (some t) s)
  Gone-put t s apart (none_there, own) =
      (if_false _ (not_str_eq t.id id apart) ∙ none_there, Own-put t s own)

  Gone-clear : (gone : String) (s : Shelf) → Gone s → Gone (put gone none s)
  Gone-clear gone s (none_there, own) = (cleared, Own-clear gone s own)
    where
      cleared : (put gone none s).tasks id ≡ none
      cleared = elim (Bool-cases (str_eq gone id)) [
        | inl same ↦ if_true _ same
        | inr other ↦ if_false _ other ∙ none_there
      ]

  Gone-Partly :
      (j : String) (o : Option Task) (b : Bool) (s s' : Shelf)
      → Gone s
      → Gone (put j o s)
      → Partly j o b s s'
      → Gone s'
  Gone-Partly j o b s s' before half (inl e) = subst Gone (sym e) before
  Gone-Partly j o b s s' before half (inr (inl e)) = subst Gone (sym e) half
  Gone-Partly j o b s s' before half (inr (inr e)) = subst Gone (sym e) half

  Gone-delete_from : (o : Option Task) (j : String) (s : Shelf) → Gone s → Gone (delete_from o j s)
  Gone-delete_from none j s h = h
  Gone-delete_from (some t) j s h = Gone-clear j s h

  Gone-Possible :
      (op : Op) (a : Result String Answer) (s s' : Shelf)
      → Possible op a s s'
      → Spares op
      → Gone s
      → Gone s'
  Gone-Possible (create t) (ok a) s s' (_, e) apart h = subst Gone (sym e) (Gone-put t s apart h)
  Gone-Possible (create t) (err x) s s' cut apart h =
      Gone-Partly t.id (some t) _ s s' h (Gone-put t s apart h) cut
  Gone-Possible (get j) (ok a) s s' (_, e) _ h = subst Gone (sym e) h
  Gone-Possible (get j) (err x) s s' e _ h = subst Gone (sym e) h
  Gone-Possible (delete j) (ok a) s s' (_, e) _ h =
      subst Gone (sym e) (Gone-delete_from (s.tasks j) j s h)
  Gone-Possible (delete j) (err x) s s' cut _ h = Gone-Partly j none _ s s' h (Gone-clear j s h) cut
  Gone-Possible list (ok a) s s' (_, e) _ h = subst Gone (sym e) h
  Gone-Possible list (err x) s s' e _ h = subst Gone (sym e) h

  Possible-Without :
      (op : Op) (a : Result String Answer) (s s' : Shelf)
      → Possible op a s s'
      → Gone s
      → Without op a
  Possible-Without (get j) (ok a) s s' (answer, _) (gone, _) =
      λ e. answer ∙ (λ i. got (s.tasks (e i))) ∙ (λ i. got (gone i))
  Possible-Without list (ok a) s s' ((ts, answer, _, has), _) (gone, own) = λ tasks e t there is.
      let same : ts ≡ tasks = listed-inj (sym answer ∙ e) in
      let (j, _, kept_there) = (has t).0 (subst (Has t) (sym same) there) in
      let at : j ≡ id = sym (own j t kept_there) ∙ is in
      none-ne-some t (sym gone ∙ sym (λ i. s.tasks (at i)) ∙ kept_there)
    where
      listed-inj : {l m : List Task} → listed l ≡ listed m → l ≡ m
      listed-inj e = cc
  Possible-Without (create t) (ok a) s s' _ _ = tt
  Possible-Without (delete j) (ok a) s s' _ _ = tt
  Possible-Without (create t) (err x) s s' _ _ = tt
  Possible-Without (get j) (err x) s s' _ _ = tt
  Possible-Without (delete j) (err x) s s' _ _ = tt
  Possible-Without list (err x) s s' _ _ = tt

  Trace-Without :
      (ops : List Op) (answers : List (Result String Answer)) (s s' : Shelf)
      → Trace ops answers s s'
      → AllSpare ops
      → Gone s
      → AllWithout ops answers
  Trace-Without [] [] s s' t spare h = tt
  Trace-Without [] (a ∷ answers) s s' t spare h = t
  Trace-Without (op ∷ ops) [] s s' t spare h = t
  Trace-Without (op ∷ ops) (a ∷ answers) s s' (mid, step, rest) spare h = (
    Possible-Without op a s mid step h,
    Trace-Without ops answers mid s' rest spare.1 (Gone-Possible op a s mid step spare.0 h),
  )

  Gone-deleted : (o : Option Task) (s : Shelf) → s.tasks id ≡ o → Own s → Gone (delete_from o id s)
  Gone-deleted none s e own = (e, own)
  Gone-deleted (some t) s e own = (if_true _ (str_eq_self id), Own-clear id s own)

module _ (r : Server) (law : IsServer r) (json : Json Task) (atomic : IsAtomic r law) where
  open r use {S}
  open law use {view}

  -- After a deletion that was answered, whether with true or false, and as long as nobody tries to
  -- create the id again, no answer brings the task back, whatever commands the server fails at: a
  -- read of the id that is answered finds nothing, and no listing has a task of that id. At first
  -- every task must be kept under its own id.
  pub deleted_stays :
      (id : String) (x : S) (s : Shelf) (a : Answer) (ops : List Op)
      → Fits r law json (view x) s
      → Own s
      → (perform r json (delete id) x).1 ≡ ok a
      → AllSpare id ops
      → AllWithout id ops (run_on r json ops (perform r json (delete id) x).0).1
  deleted_stays id x s a ops fits own e spare =
      let (mid, possible, fits') = perform-Possible r law json atomic (delete id) x s fits in
      let (_, left) = subst (λ p. Possible (delete id) p s mid) e possible in
      let gone = subst (Gone id) (sym left) (Gone-deleted id (s.tasks id) s refl own) in
      let x₁ = (perform r json (delete id) x).0 in
      let (s', trace, _) = run_on-Trace r law json atomic ops x₁ mid fits' in
      Trace-Without id ops (run_on r json ops x₁).1 mid s' trace spare gone
