-- ===== src/Resilient/Client/Trip.antt =====
-- What a failure means for the requests that follow it: an open circuit keeps them from the network.
use rust_basics.Prelude.{
  ℕ, ◌+◌, ◌<◌, ◌≡◌, ◌≢◌, sym, ap, subst, ◌∙◌, true, false, some, ◌∷◌, [], String, List, ◌⊎◌,
  false≢true, str_eq, eq_iff, str_eq_self, format, Result, ok, err, arith, inl, inr, Bool-cases,
  if_true, if_false, if◌then◌else◌,
}
use rust_basics.Resilient.Float.{Float}
use rust_basics.Resilient.Platform.{Platform}
use rust_basics.Resilient.Breaker.{
  open_, Cells, Limits, state_of, allow_request, record_success, record_failure,
}
use rust_basics.Resilient.Config.{timeout}
use rust_basics.Resilient.Request.{
  OutboundRequest, transient, ExecErr, timed_out, connect, other, execute,
}
use rust_basics.Resilient.Client.{
  Client, PolicySet, Attempt, set_policy, policy_for, admit, classify, complete, send,
}
use rust_basics.Resilient.Client.Tries.{send-is_shutting_down}
use rust_basics.Resilient.Client.Isolation.{send_other_policies}

pub some-inj {ℓ} : {A : Type ℓ} {x y : A} → some x ≡ some y → x ≡ y
some-inj e = cc

module _ (p : Platform) where
  open p use {fl, Response, check}

  pub classify-opens :
      (l : Limits (Float.F64 fl)) (cells : Cells) (key method : String) (timeout : ℕ)
      (outcome : Result ExecErr Response) (now later : ℕ)
      → state_of cells ≢ open_
      → state_of (classify p l cells key method timeout outcome now later).0 ≡ open_
      → (classify p l cells key method timeout outcome now later).0.opened_at_ms ≡ later
  unfolding classify record_success record_failure
  classify-opens l cells key method timeout (ok resp) now later h e = ground arith
  classify-opens l cells key method timeout (err timed_out) now later h e = ground arith
  classify-opens l cells key method timeout (err (connect m)) now later h e = ground arith
  classify-opens l cells key method timeout (err (other m)) now later h e = ground arith

  pub asked_not_open :
      (l : Limits (Float.F64 fl)) (cells : Cells) (now : ℕ)
      → state_of cells ≢ open_
      → allow_request fl l cells now ≡ (cells, true)
  unfolding allow_request
  asked_not_open l cells now h = ground arith

  asked_too_early :
      (l : Limits (Float.F64 fl)) (cells : Cells) (now : ℕ)
      → state_of cells ≡ open_
      → 0 < l.half_open_timeout_ms
      → now < cells.opened_at_ms + l.half_open_timeout_ms
      → allow_request fl l cells now ≡ (cells, false)
  unfolding allow_request
  asked_too_early l cells now o pos h = ground arith

  module _ (c : Client p) (req : OutboundRequest) (policy : PolicySet p) where
    -- An open circuit refuses.
    pub send_open :
        (b : Attempt p)
        → c.is_shutting_down ≡ false
        → c.policies req.target ≡ some policy
        → state_of policy.cells ≡ open_
        → 0 < policy.limits.half_open_timeout_ms
        → b.asked_at < policy.cells.opened_at_ms + policy.limits.half_open_timeout_ms
        → let (c', result) = send p c req b in
          (result ≡ err (transient (format ("circuit breaker open for " ∷ req.target ∷ []))))
          × (c'.policies req.target ≡ some policy)
          × (c'.in_flight ≡ c.in_flight)
          × (c'.is_shutting_down ≡ false)
    unfolding send admit policy_for set_policy
    send_open b up known o pos early =
        let refused = asked_too_early policy.limits policy.cells b.asked_at o pos early in
        let self = str_eq_self req.target in
        (ground arith, ground arith, ground arith, ground arith)

    -- The cells after a request that found the circuit not open and the limiter free.
    abbrev pub told : Attempt p → Cells
    told a =
        (classify p policy.limits policy.cells req.target req.method
          (timeout fl policy.config c.default_timeout) (execute a.reply) a.replied_at a.opened_at).0

    pub send_not_open :
        (a : Attempt p)
        → c.is_shutting_down ≡ false
        → c.policies req.target ≡ some policy
        → state_of policy.cells ≢ open_
        → let (limiter, free) = check policy.rate_limiter a.asked_at in
          ((send p c req a).0.policies req.target
            ≡ some (
                if free
                then record policy { cells = told a; rate_limiter = limiter }
                else record policy { rate_limiter = limiter }))
          × ((send p c req a).0.is_shutting_down ≡ false)
    unfolding send admit complete policy_for set_policy
    send_not_open a up known shut =
        let asked = asked_not_open policy.limits policy.cells a.asked_at shut in
        let self = str_eq_self req.target in (ground arith, ground arith)

    pub send-opens :
        (a : Attempt p) (q : PolicySet p)
        → c.is_shutting_down ≡ false
        → c.policies req.target ≡ some policy
        → state_of policy.cells ≢ open_
        → (send p c req a).0.policies req.target ≡ some q
        → state_of q.cells ≡ open_
        → (q.cells.opened_at_ms ≡ a.opened_at) × (q.limits ≡ policy.limits)
    send-opens a q up known shut found o =
        let (stored, _) = send_not_open a up known shut in
        let (limiter, free) = check policy.rate_limiter a.asked_at in
        elim (Bool-cases free) [
          | inl e ↦
              let same : record policy { cells = told a; rate_limiter = limiter } ≡ q =
                some-inj (ap some (sym (if_true _ e)) ∙ sym stored ∙ found) in
              let cells : told a ≡ q.cells = λ i. (same i).cells in
              let opened =
                classify-opens policy.limits policy.cells req.target req.method
                  (timeout fl policy.config c.default_timeout) (execute a.reply) a.replied_at
                  a.opened_at shut (ap state_of cells ∙ o) in
              (sym (ap (λ x. x.opened_at_ms) cells) ∙ opened, sym (λ i. (same i).limits))
          | inr e ↦
              let same : record policy { rate_limiter = limiter } ≡ q =
                some-inj (ap some (sym (if_false _ e)) ∙ sym stored ∙ found) in
              absurd (shut (ap state_of (λ i. (same i).cells) ∙ o))
        ]

  -- Requests that are sent one after the other: those for `key` are refused by its open circuit and
  -- not counted as in flight, and none of them changes the policy of `key`.
  abbrev pub AllRefused :
      String → PolicySet p → List (OutboundRequest × Attempt p) → Client p → Type 0
  AllRefused key q [] c = Unit {0}
  AllRefused key q ((r, b) ∷ later) c =
      let (c', result) = send p c r b in
      ((r.target ≢ key)
        ⊎ ((result ≡ err (transient (format ("circuit breaker open for " ∷ key ∷ []))))
            × (c'.in_flight ≡ c.in_flight)))
      × (c'.policies key ≡ some q)
      × AllRefused key q later c'

  -- Every request for `key` is asked for before `end`.
  abbrev pub AskedBefore : String → ℕ → List (OutboundRequest × Attempt p) → Type 0
  AskedBefore key end [] = Unit {0}
  AskedBefore key end ((r, b) ∷ later) =
      ((r.target ≢ key) ⊎ (b.asked_at < end)) × AskedBefore key end later

  module _ (key : String) (q : PolicySet p) where
    module _ (o : state_of q.cells ≡ open_) (pos : 0 < q.limits.half_open_timeout_ms) where
      open_refuses :
          (sent : List (OutboundRequest × Attempt p)) (c : Client p)
          → c.is_shutting_down ≡ false
          → c.policies key ≡ some q
          → AskedBefore key (q.cells.opened_at_ms + q.limits.half_open_timeout_ms) sent
          → AllRefused key q sent c
      open_refuses [] c up known h = tt
      open_refuses ((r, b) ∷ later) c up known (mine, rest) =
          let c' = (send p c r b).0 in
          let up' = send-is_shutting_down p c r b ∙ up in
          elim (Bool-cases (str_eq r.target key)) [
            | inl same ↦
                let target : r.target ≡ key = (eq_iff r.target key).0 same in
                let early : b.asked_at < q.cells.opened_at_ms + q.limits.half_open_timeout_ms =
                  elim mine [ inl ne ↦ absurd (ne target) | inr lt ↦ lt ] in
                let (refused, stays, flying, _) =
                  send_open c r q b up (ap c.policies target ∙ known) o pos early in
                let still = ap c'.policies (sym target) ∙ stays in
                (
                  inr (
                    subst
                        (λ k.
                          (send p c r b).1
                          ≡ err (transient (format ("circuit breaker open for " ∷ k ∷ []))))
                        target refused,
                    flying,
                  ),
                  still,
                  open_refuses later c' up' still rest,
                )
            | inr differ ↦
                let ne : r.target ≢ key =
                  λ t. false≢true (sym differ ∙ (eq_iff r.target key).1 t) in
                let still = send_other_policies p c r b key ne ∙ known in
                (inl ne, still, open_refuses later c' up' still rest)
          ]

  module _ (c : Client p) (req : OutboundRequest) (policy : PolicySet p) where
    -- When the failure of a request opens the circuit of its target, then of whichever requests are
    -- sent after it, one after the other, each one of that target that is asked for before the
    -- timeout, counted from the time of the opening, is refused: the caller gets a transient error,
    -- whatever the network would have answered, the policy stays as it is and nothing is counted as
    -- in flight. Requests of other targets in between do not change the policy. The client must know
    -- the target and not be shutting down, and its timeout must be above 0.
    pub send-trip :
        (a : Attempt p) (sent : List (OutboundRequest × Attempt p)) (q : PolicySet p)
        → c.is_shutting_down ≡ false
        → c.policies req.target ≡ some policy
        → state_of policy.cells ≢ open_
        → (send p c req a).0.policies req.target ≡ some q
        → state_of q.cells ≡ open_
        → 0 < policy.limits.half_open_timeout_ms
        → AskedBefore req.target (a.opened_at + policy.limits.half_open_timeout_ms) sent
        → AllRefused req.target q sent (send p c req a).0
    send-trip a sent q up known shut found o pos early =
        let (opened, limits) = send-opens c req policy a q up known shut found o in
        let span = ap (λ l. l.half_open_timeout_ms) limits in
        let end : q.cells.opened_at_ms + q.limits.half_open_timeout_ms
            ≡ a.opened_at + policy.limits.half_open_timeout_ms =
          omega (arith, opened, span) in
        open_refuses req.target q o (subst (λ n. 0 < n) (sym span) pos) sent (send p c req a).0
          (send_not_open c req policy a up known shut).1 found
          (subst (λ n. AskedBefore req.target n sent) (sym end) early)
