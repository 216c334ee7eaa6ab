-- ===== src/Resilient/Client/Futile.antt =====
-- `send_with_retry` when the circuit opens under it: the tries that are left do not reach the network.
use rust_basics.Prelude.{
  ℕ, zero, suc, ◌+◌, ◌-◌, ◌<◌, ◌≤◌, ◌≡◌, ◌≢◌, sym, ap, subst, ◌∙◌, false, Option, some, ◌∷◌, [],
  String, format, Result, ok, err, arith, inl, inr, Bool, true, not, ◌||◌, refl, false≢true,
  Bool-cases, Result-cases, if_true, if_false, str_eq_self, leb,
}
use rust_basics.Resilient.Float.{Float}
use rust_basics.Resilient.Platform.{Platform}
use rust_basics.Resilient.Breaker.{Cells, Limits, open_, state_of, record_success, record_failure}
use rust_basics.Resilient.Backoff.{full_jitter}
use rust_basics.Resilient.Config.{OutboundTargetConfig, timeout}
use rust_basics.Resilient.Request.{
  OutboundRequest, OutboundError, transient, retried, slept, is_fatal, ExecErr, timed_out, connect,
  other, execute,
}
use rust_basics.Resilient.Client.{
  Client, PolicySet, Attempt, emit, send, policy_for, set_policy, admit, classify, complete,
}
use rust_basics.Resilient.Client.Retry.{retry_from, send_with_retry}
use rust_basics.Resilient.Client.Trip.{
  some-inj, asked_not_open, told, send_open, send_not_open, send-opens,
}

module _ (p : Platform) where
  open p use {fl, Response, check}

  -- An error that is worth another try.
  abbrev soft : Result OutboundError Response → Bool
  soft (ok resp) = false
  soft (err e) = not (is_fatal e)

  soft-classify :
      (l : Limits (Float.F64 fl)) (cells : Cells) (key method : String) (timeout : ℕ)
      (outcome : Result ExecErr Response) (now later : ℕ)
      → state_of cells ≢ open_
      → state_of (classify p l cells key method timeout outcome now later).0 ≡ open_
      → soft (classify p l cells key method timeout outcome now later).2 ≡ true
  unfolding classify record_success record_failure is_fatal
  soft-classify l cells key method timeout (ok resp) now later h e = ground arith
  soft-classify l cells key method timeout (err timed_out) now later h e = ground arith
  soft-classify l cells key method timeout (err (connect m)) now later h e = ground arith
  soft-classify l cells key method timeout (err (other m)) now later h e = ground arith

  module _ (c : Client p) (req : OutboundRequest) (policy : PolicySet p) (a : Attempt p) where
    send_replied :
        c.is_shutting_down ≡ false
        → c.policies req.target ≡ some policy
        → state_of policy.cells ≢ open_
        → (check policy.rate_limiter a.asked_at).1 ≡ true
        → (send p c req a).1
          ≡ (classify p policy.limits policy.cells req.target req.method
              (timeout fl policy.config c.default_timeout)
              (execute a.reply)
              a.replied_at
              a.opened_at).2
    unfolding send admit complete policy_for set_policy
    send_replied up known shut free =
        let asked = asked_not_open p policy.limits policy.cells a.asked_at shut in
        let self = str_eq_self req.target in ground arith

    -- The request that opens the circuit fails with an error that is worth another try.
    soft-send :
        (q : PolicySet p)
        → c.is_shutting_down ≡ false
        → c.policies req.target ≡ some policy
        → state_of policy.cells ≢ open_
        → (send p c req a).0.policies req.target ≡ some q
        → state_of q.cells ≡ open_
        → soft (send p c req a).1 ≡ true
    soft-send q up known shut found o =
        let (stored, _) = send_not_open p c req policy a up known shut in
        let (limiter, free) = check policy.rate_limiter a.asked_at in
        elim (Bool-cases free) [
          | inl e ↦
              let same : record policy { cells = told p c req policy a; rate_limiter = limiter }
                  ≡ q =
                some-inj (ap some (sym (if_true _ e)) ∙ sym stored ∙ found) in
              ap soft (send_replied up known shut e)
              ∙ soft-classify policy.limits policy.cells req.target req.method
                  (timeout fl policy.config c.default_timeout) (execute a.reply) a.replied_at
                  a.opened_at shut (ap state_of (λ i. (same i).cells) ∙ o)
          | inr e ↦
              let same : record policy { rate_limiter = limiter } ≡ q =
                some-inj (ap some (sym (if_false _ e)) ∙ sym stored ∙ found) in
              absurd (shut (ap state_of (λ i. (same i).cells) ∙ o))
        ]

module _ (p : Platform) (random : ℕ → ℕ) (req : OutboundRequest) (world : ℕ → Attempt p) where
  open p use {fl, Response}

  abbrev pub refusal : OutboundError
  refusal = transient (format ("circuit breaker open for " ∷ req.target ∷ []))

  -- The tries ended with a refusal, and left the target's policy and `in_flight` as they were.
  pub record Refused (c : Client p) (policy : PolicySet p)
      (r : Option (Client p × Result OutboundError Response)) : Type 0 where
    pub last : Client p
    pub ended : r ≡ some (last, err refusal)
    pub stays : last.policies req.target ≡ some policy
    pub flying : last.in_flight ≡ c.in_flight

  -- All tries from `attempt` on, up to the last, come before the timeout.
  abbrev pub Early : ℕ → ℕ → PolicySet p → Type 0
  Early attempt max policy =
      (k : ℕ)
      → attempt ≤ k
      → k ≤ max
      → (world k).asked_at < policy.cells.opened_at_ms + policy.limits.half_open_timeout_ms

  module _ (policy : PolicySet p) (cfg : OutboundTargetConfig fl)
      (is_open : state_of policy.cells ≡ open_) (pos : 0 < policy.limits.half_open_timeout_ms) where
    retry_from-Refused :
        (fuel attempt : ℕ) (c : Client p)
        → attempt ≤ cfg.retry_max_attempts
        → cfg.retry_max_attempts - attempt < fuel
        → c.is_shutting_down ≡ false
        → c.policies req.target ≡ some policy
        → Early attempt cfg.retry_max_attempts policy
        → Refused c policy (retry_from p random req cfg fuel attempt world c)
    unfolding retry_from is_fatal
    retry_from-Refused zero attempt c few h up known early = absurd (omega arith)
    retry_from-Refused (suc fuel) attempt c few h up known early =
        let first = early attempt (omega arith) few in
        let (refused, stays, flying, up') =
          send_open p c req policy (world attempt) up known is_open pos first in
        let c' = (send p c req (world attempt)).0 in
        elim (Bool-cases (leb cfg.retry_max_attempts attempt)) [
          | inl stop ↦ record {
            last = c';
            ended = rw (refused, stop, retry_from);
            stays = stays;
            flying = flying;
          }
          | inr again ↦
              let delay = full_jitter fl random (attempt + 1) cfg.retry_base_ms cfg.retry_cap_ms in
              let c'' = emit p (emit p c' (retried req.target)) (slept delay) in
              let ih =
                retry_from-Refused fuel (attempt + 1) c'' (ground arith) (ground arith) up' stays
                  (λ k low high. early k (omega (arith, low)) high) in
              record {
                last = ih.last;
                ended = rw (refused, again, retry_from) ih.ended;
                stays = ih.stays;
                flying = ih.flying ∙ flying;
              }
        ]

  retries_once :
      (c : Client p) (cfg : OutboundTargetConfig fl) (fuel : ℕ)
      → soft p (send p c req (world 0)).1 ≡ true
      → 0 < cfg.retry_max_attempts
      → retry_from p random req cfg (suc fuel) 0 world c
        ≡ retry_from p random req cfg fuel 1 world (
            emit p
              (emit p (send p c req (world 0)).0 (retried req.target))
              (slept (full_jitter fl random 1 cfg.retry_base_ms cfg.retry_cap_ms)))
  unfolding retry_from
  retries_once c cfg fuel worth some_left = elim (Result-cases (send p c req (world 0)).1) [
    | inl (resp, e) ↦ absurd (false≢true (rw e at worth))
    | inr (x, e) ↦
        let again : (is_fatal x || leb cfg.retry_max_attempts 0) ≡ false =
          unrefused x (rw e at worth) in
        rw (e, retry_from) (rw again refl)
  ]
    where
      unrefused :
          (x : OutboundError)
          → not (is_fatal x) ≡ true
          → (is_fatal x || leb cfg.retry_max_attempts 0) ≡ false
      unrefused x h = ground arith

  known_policy :
      (c : Client p) (now : ℕ) (policy : PolicySet p)
      → c.policies req.target ≡ some policy
      → policy_for p c req.target now ≡ (c, policy)
  unfolding policy_for
  known_policy c now policy known = rw (known, policy_for) refl

  -- When the first try of `send_with_retry` opens the circuit of its target, and the other tries
  -- that the policy allows, at least one, come before the timeout is over, then none of them reaches
  -- the network: whatever it would have answered, the caller gets the error of an open circuit, the
  -- target's policy stays as the first try left it, and so does `in_flight`. The client must know the
  -- target and not be shutting down, and its timeout must be above 0.
  pub send_with_retry-Refused :
      (c : Client p) (now : ℕ) (policy q : PolicySet p)
      → c.is_shutting_down ≡ false
      → c.policies req.target ≡ some policy
      → state_of policy.cells ≢ open_
      → (send p c req (world 0)).0.policies req.target ≡ some q
      → state_of q.cells ≡ open_
      → 0 < policy.limits.half_open_timeout_ms
      → 0 < policy.config.retry_max_attempts
      → Early 1 policy.config.retry_max_attempts q
      → Refused (send p c req (world 0)).0 q (send_with_retry p random req world c now)
  unfolding send_with_retry
  send_with_retry-Refused c now policy q up known shut found o pos some_left early =
      let cfg = policy.config in
      let (_, limits) = send-opens p c req policy (world 0) q up known shut found o in
      let pos' = subst (λ n. 0 < n) (sym (ap (λ l. l.half_open_timeout_ms) limits)) pos in
      let worth = soft-send p c req policy (world 0) q up known shut found o in
      let up' = (send_not_open p c req policy (world 0) up known shut).1 in
      let first = (send p c req (world 0)).0 in
      let delay = full_jitter fl random 1 cfg.retry_base_ms cfg.retry_cap_ms in
      let next = emit p (emit p first (retried req.target)) (slept delay) in
      let rest =
        retry_from-Refused q cfg o pos' cfg.retry_max_attempts 1 next some_left
          (omega (arith, some_left)) up' found early in
      record {
        last = rest.last;
        ended =
            rw (known_policy c now policy known, send_with_retry)
              (retries_once c cfg cfg.retry_max_attempts worth some_left ∙ rest.ended);
        stays = rest.stays;
        flying = rest.flying;
      }
