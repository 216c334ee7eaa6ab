-- ===== src/Resilient/Client/Feedback.antt =====
-- What the breaker hears of a call of `send`, and what the caller is told.
use rust_basics.Prelude.{
  ℕ, ◌≡◌, ◌⊎◌, inl, inr, false, true, some, str_eq_self, ok, err, arith, Result-cases, refl, String,
  if◌then◌else◌, sym, ◌∙◌,
}
use rust_basics.Resilient.Platform.{Platform}
use rust_basics.Resilient.Breaker.{Cells, allow_request, record_success, record_failure}
use rust_basics.Resilient.Request.{
  OutboundError, OutboundRequest, transient, fatal, is_transient, execute,
}
use rust_basics.Resilient.Client.{
  Client, PolicySet, Attempt, admit, classify, complete, send, policy_for, set_policy,
}
use rust_basics.Resilient.Client.Outcome.{classify_feedback}

module _ (p : Platform) (c : Client p) (req : OutboundRequest) (policy : PolicySet p) where
  open p use {fl, Response, check}

  -- The client knows the target, with a breaker in these cells.
  abbrev pub Heard : Client p → Cells → Type 0
  Heard after cells = (q : PolicySet p) × (after.policies req.target ≡ some q) × (q.cells ≡ cells)

  -- The cells after the breaker was asked.
  abbrev pub asked : Attempt p → Cells
  asked a = (allow_request fl policy.limits policy.cells a.asked_at).0

  send-admitted :
      (a : Attempt p) (t : ℕ)
      → c.is_shutting_down ≡ false
      → c.policies req.target ≡ some policy
      → (admit p c req a.asked_at).1 ≡ ok t
      → let (cells, _, result) =
          classify p policy.limits
            (asked a)
            req.target
            req.method
            t
            (execute a.reply)
            a.replied_at
            a.opened_at in
        ((send p c req a).1 ≡ result) × Heard (send p c req a).0 cells
  unfolding send admit complete policy_for set_policy
  send-admitted a t up known h =
      let self = str_eq_self req.target in
      let cells =
        (classify p policy.limits (asked a) req.target req.method t (execute a.reply) a.replied_at
          a.opened_at).0 in
      let limiter = (check policy.rate_limiter a.asked_at).0 in
      (ground arith, (record policy { cells = cells; rate_limiter = limiter }, ground arith, refl))

  -- A request goes out exactly when neither the circuit nor the local limit refuses it.
  admit-passes :
      (a : Attempt p) (t : ℕ) (e : OutboundError)
      → c.is_shutting_down ≡ false
      → c.policies req.target ≡ some policy
      → let allowed = (allow_request fl policy.limits policy.cells a.asked_at).1 in
        let free = (check policy.rate_limiter a.asked_at).1 in
        ((admit p c req a.asked_at).1 ≡ ok t → (allowed ≡ true) × (free ≡ true))
        × ((admit p c req a.asked_at).1 ≡ err e → (allowed ≡ false) ⊎ (free ≡ false))
  unfolding admit policy_for
  admit-passes a t e up known = (ground arith, ground arith)

  send-refused :
      (a : Attempt p) (e : OutboundError)
      → c.is_shutting_down ≡ false
      → c.policies req.target ≡ some policy
      → (admit p c req a.asked_at).1 ≡ err e
      → ((send p c req a).1 ≡ err e) × (is_transient e ≡ true) × Heard (send p c req a).0 (asked a)
  unfolding send admit policy_for set_policy is_transient
  send-refused a e up known h =
      let self = str_eq_self req.target in
      let (limiter, _) = check policy.rate_limiter a.asked_at in
      let allowed = (allow_request fl policy.limits policy.cells a.asked_at).1 in
      let asked_only = record policy { cells = asked a } in
      (
        ground arith,
        ground arith,
        (
          if allowed then record asked_only { rate_limiter = limiter } else asked_only,
          ground arith,
          ground arith,
        ),
      )

  -- A request of a known target, of a client that is not shutting down, either passes the circuit
  -- and the local limit, and then the breaker hears of a failure if the caller gets a transient
  -- error, and of a success if the caller gets a response or a fatal error; or one of the two refuses
  -- it, and then the caller gets a transient error of which the breaker hears nothing: its cells are
  -- those after it was asked.
  pub send-feedback :
      (a : Attempt p) (message : String) (resp : Response)
      → c.is_shutting_down ≡ false
      → c.policies req.target ≡ some policy
      → let (after, result) = send p c req a in
        let failure = record_failure fl policy.limits (asked a) a.replied_at a.opened_at in
        let success = record_success fl policy.limits (asked a) a.replied_at in
        let allowed = (allow_request fl policy.limits policy.cells a.asked_at).1 in
        let free = (check policy.rate_limiter a.asked_at).1 in
        ((allowed ≡ true)
          × (free ≡ true)
          × (result ≡ err (transient message) → Heard after failure)
          × (result ≡ err (fatal message) → Heard after success)
          × (result ≡ ok resp → Heard after success))
        ⊎ ((e : OutboundError) × ((allowed ≡ false) ⊎ (free ≡ false))
            × (result ≡ err e)
            × (is_transient e ≡ true)
            × Heard after (asked a))
  send-feedback a message resp up known = elim (Result-cases (admit p c req a.asked_at).1) [
    | inl (t, went) ↦
        let (same, (q, found, cells)) = send-admitted a t up known went in
        let (bad, wrong, good) =
          classify_feedback p policy.limits (asked a) req.target req.method t a.replied_at
            a.opened_at (execute a.reply) message resp in
        let (allowed, free) = (admit-passes a t (transient "") up known).0 went in
        inl (
          allowed,
          free,
          λ r. (q, found, cells ∙ bad (sym same ∙ r)),
          λ r. (q, found, cells ∙ wrong (sym same ∙ r)),
          λ r. (q, found, cells ∙ good (sym same ∙ r)),
        )
    | inr (e, stopped) ↦
        let (told, soft, heard) = send-refused a e up known stopped in
        inr (e, (admit-passes a 0 e up known).1 stopped, told, soft, heard)
  ]
