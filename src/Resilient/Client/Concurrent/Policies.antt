-- ===== src/Resilient/Client/Concurrent/Policies.antt =====
-- Every policy of the client stands, whatever call touches it.
use rust_basics.Prelude.{
  ℕ, ◌≤◌, ◌≡◌, refl, sym, ◌∙◌, subst, inl, inr, Option, some, List, [], ◌∷◌, String, str_eq, eq_iff,
  Result, ok, err, arith, if_true, if_false, if_both, Bool-cases, Option-cases,
}
use rust_basics.Resilient.Float.{Float}
use rust_basics.Resilient.Platform.{Platform}
use rust_basics.Resilient.Breaker.{
  Cells, Limits, new_cells, allow_request, record_success, record_failure,
}
use rust_basics.Resilient.Config.{OutboundTargetConfig, fallback}
use rust_basics.Resilient.Request.{
  OutboundError, OutboundRequest, ExecErr, timed_out, connect, other, Reply, execute,
}
use rust_basics.Resilient.Client.{
  Client, PolicySet, from_config, set_policy, policies_of, policy_for, admit, classify, complete,
  finish_in_flight,
}
use rust_basics.Resilient.Client.Concurrent.{Stands, AllStand}

some-inj {ℓ} : {A : Type ℓ} {x y : A} → some x ≡ some y → x ≡ y
some-inj e = cc

module _ (p : Platform) where
  open p use {fl, Response, check}

  from_config-Stands :
      (cfg : OutboundTargetConfig fl) (now : ℕ) → Stands p cfg.name (from_config p cfg now)
  unfolding from_config new_cells
  from_config-Stands cfg now = record {
    name_is_key = refl;
    limits_of_config = refl;
    state_is_known = omega arith;
  }

  set_policy-Stands :
      (key : String) (policy : PolicySet p) (policies : String → Option (PolicySet p))
      → Stands p key policy
      → AllStand p policies
      → AllStand p (set_policy p key policy policies)
  unfolding set_policy
  set_policy-Stands key policy policies s h k q e = elim (Bool-cases (str_eq key k)) [
    | inl same ↦
        let found : some policy ≡ some q = sym (if_true _ same) ∙ e in
        subst (Stands p k) (some-inj found)
          (subst (λ j. Stands p j policy) ((eq_iff key k).0 same) s)
    | inr apart ↦ h k q (sym (if_false _ apart) ∙ e)
  ]

  pub policies_of-Stands :
      (targets : List (OutboundTargetConfig fl)) (now : ℕ)
      (policies : String → Option (PolicySet p))
      → AllStand p policies
      → AllStand p (policies_of p targets now policies)
  unfolding policies_of
  policies_of-Stands [] now policies h = h
  policies_of-Stands (t ∷ targets) now policies h =
      policies_of-Stands targets now (set_policy p t.name (from_config p t now) policies)
        (set_policy-Stands t.name (from_config p t now) policies (from_config-Stands t now) h)

  fallback-Stands : (key : String) (now : ℕ) → Stands p key (from_config p (fallback fl key) now)
  unfolding fallback
  fallback-Stands key now = from_config-Stands (fallback fl key) now

  -- A policy that is there stands, and so does a fallback, which is kept.
  policy_for-Stands :
      (c : Client p) (key : String) (now : ℕ)
      → AllStand p c.policies
      → Stands p key (policy_for p c key now).1 × AllStand p (policy_for p c key now).0.policies
  unfolding policy_for
  policy_for-Stands c key now h = elim (Option-cases (c.policies key)) [
    | inl e ↦
        let fresh = from_config p (fallback fl key) now in
        let stands = fallback-Stands key now in
        rw (e, policy_for) (stands, set_policy-Stands key fresh c.policies stands h)
    | inr (q, e) ↦ rw (e, policy_for) (h key q e, h)
  ]

  -- A call of the breaker or of the limiter leaves the rest of the policy alone.
  touched :
      (key : String) (q : PolicySet p) (cells : Cells) (limiter : Platform.Limiter p)
      → cells.state ≤ 2
      → Stands p key q
      → Stands p key (record q { cells = cells; rate_limiter = limiter })
  touched key q cells limiter small s = record {
    name_is_key = s.name_is_key;
    limits_of_config = s.limits_of_config;
    state_is_known = small;
  }

  allow_request_known :
      (l : Limits (Float.F64 fl)) (cells : Cells) (now : ℕ)
      → cells.state ≤ 2
      → (allow_request fl l cells now).0.state ≤ 2
  unfolding allow_request
  allow_request_known l cells now h = ground arith

  classify_known :
      (l : Limits (Float.F64 fl)) (cells : Cells) (key method : String) (timeout : ℕ)
      (outcome : Result ExecErr Response) (now later : ℕ)
      → cells.state ≤ 2
      → (classify p l cells key method timeout outcome now later).0.state ≤ 2
  unfolding classify record_success record_failure
  classify_known l cells key method timeout (ok resp) now later h = ground arith
  classify_known l cells key method timeout (err timed_out) now later h = ground arith
  classify_known l cells key method timeout (err (connect m)) now later h = ground arith
  classify_known l cells key method timeout (err (other m)) now later h = ground arith

  pub admit-Stands :
      (c : Client p) (req : OutboundRequest) (now : ℕ)
      → AllStand p c.policies
      → AllStand p (admit p c req now).0.policies
  unfolding admit policy_for
  admit-Stands c req now h =
      let (stands, all) = policy_for-Stands c req.target now h in
      let (c₁, q) = policy_for p c req.target now in
      let (cells, allowed) = allow_request fl q.limits q.cells now in
      let (limiter, free) = check q.rate_limiter now in
      let small = allow_request_known q.limits q.cells now (stands.state_is_known) in
      let asked =
        set_policy-Stands req.target (record q { cells = cells }) c₁.policies
          (touched req.target q cells q.rate_limiter small stands) all in
      let limited =
        set_policy-Stands req.target (record q { cells = cells; rate_limiter = limiter })
          c₁.policies (touched req.target q cells limiter small stands) all in
      let P : Client p × Result OutboundError ℕ → Type 0 = λ r. AllStand p r.0.policies in
      if_both P c.is_shutting_down h (if_both P allowed (if_both P free limited limited) asked)

  pub complete-Stands :
      (c : Client p) (req : OutboundRequest) (timeout : ℕ) (reply : Reply Response) (now later : ℕ)
      → AllStand p c.policies
      → AllStand p (complete p c req timeout reply now later).0.policies
  unfolding complete policy_for finish_in_flight
  complete-Stands c req timeout reply now later h =
      let (stands, all) = policy_for-Stands c req.target now h in
      let (c₁, q) = policy_for p c req.target now in
      let cells =
        (classify p q.limits q.cells req.target req.method timeout (execute reply) now later).0 in
      set_policy-Stands req.target (record q { cells = cells }) c₁.policies
        (touched req.target q cells q.rate_limiter
          (classify_known q.limits q.cells req.target req.method timeout (execute reply) now later
            stands.state_is_known)
          stands)
        all
