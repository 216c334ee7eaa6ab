-- ===== src/Httpx/Health.antt =====
-- crates/httpx/src/health.rs: the readiness gate and the registry of checks. A `BTreeMap` is an
-- association list; its order is not modelled. What a check answers when it is run is `probe`.
use rust_basics.Prelude.{
  ◌≡◌, ◌∙◌, refl, ◌↔◌, Bool, true, false, ◌&&◌, Option, none, some, List, [], ◌∷◌, String, str_eq,
  eq_iff, Bool-cases, not_str_eq, str_eq_self, false≢true, sym, inl, inr, Result, ok, err, lookup,
  insert, lookup-insert, arith,
}

-- `C` is the type of a check's closure.
pub record Health (C : Type 0) : Type 0 where
  pub ready : Bool
  pub checks : List (String × C)

module _ {C : Type 0} where
  -- `Health::new`
  abbrev pub new : Health C
  new = record { ready = false; checks = [] }

  unfoldable pub register : Health C → String → C → Health C
  register h name check = record h { checks = insert name check h.checks }

  unfoldable pub set_ready : Health C → Bool → Health C
  set_ready h ready = record h { ready = ready }

  unfoldable pub is_ready : Health C → Bool
  is_ready h = h.ready

module _ {C : Type 0} where
  -- No name is registered twice.
  abbrev pub Unique : List (String × C) → Type 0
  Unique [] = Unit {0}
  Unique ((name, check) ∷ rest) = (lookup name rest ≡ none) × Unique rest

  lookup-none-insert :
      (name other : String) (check : C) (checks : List (String × C))
      → str_eq name other ≡ false
      → lookup other checks ≡ none
      → lookup other (insert name check checks) ≡ none
  lookup-none-insert name other check checks apart h =
      lookup-insert name other check checks ∙ rw apart h

  insert-Unique :
      (name : String) (check : C) (checks : List (String × C))
      → Unique checks
      → Unique (insert name check checks)
  unfolding insert lookup
  insert-Unique name check [] u = (refl, tt)
  insert-Unique name check ((j, c) ∷ rest) u = elim (Bool-cases (str_eq j name)) [
    | inl same ↦ rw same (rw (← (eq_iff j name).0 same) u.0, u.1)
    | inr apart ↦
        let flipped = not_str_eq name j (λ q. false≢true (sym apart ∙ (eq_iff j name).1 (sym q))) in
        rw apart
          (lookup-none-insert name j check rest flipped u.0, insert-Unique name check rest u.1)
  ]

  -- Registering keeps the names distinct.
  register-Unique :
      (h : Health C) (name : String) (check : C)
      → Unique h.checks
      → Unique (register h name check).checks
  unfolding register
  register-Unique h name check u = insert-Unique name check h.checks u

module _ {C : Type 0} (probe : C → Result String (Unit {0})) where
  -- The text that a check's answer puts into the results, and whether it leaves `all_ok`.
  abbrev pub answer : Result String (Unit {0}) → String
  answer (ok _) = "ok"
  answer (err reason) = reason

  abbrev is_ok : Result String (Unit {0}) → Bool
  is_ok (ok _) = true
  is_ok (err _) = false

  -- The loop of `run_checks`, over the checks that are left.
  run_loop : List (String × C) → Bool → List (String × String) → Bool × List (String × String)
  run_loop [] all_ok results = (all_ok, results)
  run_loop ((name, check) ∷ rest) all_ok results =
      run_loop rest (all_ok && is_ok (probe check)) (insert name (answer (probe check)) results)

  unfoldable pub run_checks : Health C → Bool × List (String × String)
  unfolding run_loop
  run_checks h = run_loop h.checks true []

  -- Every check that is registered succeeds.
  abbrev pub AllOk : List (String × C) → Type 0
  AllOk [] = Unit {0}
  AllOk ((name, check) ∷ rest) = (probe check ≡ ok tt) × AllOk rest

  run_loop-AllOk :
      (checks : List (String × C)) (b : Bool) (results : List (String × String))
      → ((run_loop checks b results).0 ≡ true) ↔ ((b ≡ true) × AllOk checks)
  unfolding run_loop
  run_loop-AllOk [] b results = (λ e. (e, tt), λ h. h.0)
  run_loop-AllOk ((name, check) ∷ rest) b results =
      let ih =
        run_loop-AllOk rest (b && is_ok (probe check))
          (insert name (answer (probe check)) results) in
      ground arith

  -- The checks report all well exactly when each of them succeeds.
  pub run_checks-AllOk : (h : Health C) → ((run_checks h).0 ≡ true) ↔ AllOk h.checks
  unfolding run_checks
  run_checks-AllOk h =
      let loop = run_loop-AllOk h.checks true [] in (λ e. (loop.0 e).1, λ a. loop.1 (refl, a))

  -- What the results hold under a name, given the check that is registered there.
  abbrev pub reported : Option C → Option String → Option String
  reported none old = old
  reported (some check) old = some (answer (probe check))

  run_loop-results :
      (checks : List (String × C)) (b : Bool) (results : List (String × String)) (k : String)
      → Unique checks
      → lookup k (run_loop checks b results).1 ≡ reported (lookup k checks) (lookup k results)
  unfolding run_loop lookup
  run_loop-results [] b results k u = refl
  run_loop-results ((name, check) ∷ rest) b results k u =
      let ih =
        run_loop-results rest (b && is_ok (probe check))
          (insert name (answer (probe check)) results) k u.1 in
      elim (Bool-cases (str_eq name k)) [
        | inl same ↦
            rw (same, run_loop)
              (ih
                ∙ rw (← (eq_iff name k).0 same, u.0)
                    (lookup-insert name name (answer (probe check)) results
                      ∙ rw (str_eq_self name)))
        | inr apart ↦
            rw (apart, run_loop)
              (ih ∙ rw (lookup-insert name k (answer (probe check)) results) (rw apart))
      ]

  -- The results hold `ok` under the name of each check that succeeds, and the reason under the name
  -- of each that fails, and nothing else.
  run_checks-results :
      (h : Health C) (k : String)
      → Unique h.checks
      → lookup k (run_checks h).1 ≡ reported (lookup k h.checks) none
  unfolding run_checks lookup
  run_checks-results h k u = run_loop-results h.checks true [] k u
