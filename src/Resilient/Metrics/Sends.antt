-- ===== src/Resilient/Metrics/Sends.antt =====
-- What the client's metrics show after a call of `send`.
use rust_basics.Prelude.{
  ℕ, ◌+◌, ◌^◌, ◌<◌, ◌≤◌, ◌≡◌, ◌≢◌, refl, ap, ◌∙◌, false, some, List, [], ◌∷◌, String, str_eq_self,
  Result, ok, err, format, length, arith, if◌then◌else◌, Result-cases, inl, inr, subst,
}
use rust_basics.Prometheus.{Prometheus, same_labels, IsPrometheus}
use rust_basics.Resilient.Float.{Float}
use rust_basics.Resilient.Platform.{Platform}
use rust_basics.Resilient.Breaker.{Cells, Limits, to_u8, state_of, allow_request}
use rust_basics.Resilient.Request.{
  OutboundError, OutboundRequest, transient, Effect, counted, timed, ExecErr, timed_out, connect,
  other, Reply, execute,
}
use rust_basics.Resilient.Client.{
  Client, PolicySet, Attempt, admit, classify, complete, send, policy_for, set_policy,
}
use rust_basics.Resilient.Metrics.{Metrics, play_all}
use rust_basics.Resilient.Metrics.Series.{
  matching, last_state, shown, level-play_all, total-play_all,
}

-- One of the series of a target and a method has grown by one, and no other.
abbrev pub OneMore : String → String → List Effect → List Effect → Type 0
OneMore target method before after =
    (status error_type : String) × ((ls : List String)
      → matching ls after
        ≡ matching ls before
          + (if same_labels (target ∷ method ∷ status ∷ error_type ∷ []) ls then 1 else 0))

matching_lem :
    (ls : List String) (e : Effect) (target method status error_type : String) (older : List Effect)
    → e ≡ counted target method status error_type
    → matching ls (e ∷ older)
      ≡ matching ls older
        + (if same_labels (target ∷ method ∷ status ∷ error_type ∷ []) ls then 1 else 0)
matching_lem ls e target method status error_type older one =
    ap (λ x. matching ls (x ∷ older)) one ∙ omega arith

module _ (p : Platform) where
  open p use {fl, Response, status}

  policy_for-log : (c : Client p) (key : String) (now : ℕ) → (policy_for p c key now).0.log ≡ c.log
  unfolding policy_for
  policy_for-log c key now = ground arith

  abbrev status_of : Effect → String
  status_of (counted target method code error_type) = code
  status_of _ = ""

  abbrev error_of : Effect → String
  error_of (counted target method code error_type) = error_type
  error_of _ = ""

  classify-counted :
      (l : Limits (Float.F64 fl)) (cb : Cells) (key method : String) (timeout : ℕ)
      (outcome : Result ExecErr Response) (now later : ℕ)
      → let e = (classify p l cb key method timeout outcome now later).1 in
        e ≡ counted key method (status_of e) (error_of e)
  unfolding classify
  classify-counted l cb key method timeout (ok resp) now later = ground arith
  classify-counted l cb key method timeout (err timed_out) now later = refl
  classify-counted l cb key method timeout (err (connect message)) now later = refl
  classify-counted l cb key method timeout (err (other message)) now later = refl

  -- A request that goes out is not counted yet, one that is refused is.
  admit-OneMore :
      (c : Client p) (req : OutboundRequest) (now timeout : ℕ) (e : OutboundError)
      → c.is_shutting_down ≡ false
      → ((admit p c req now).1 ≡ ok timeout → (admit p c req now).0.log ≡ c.log)
        × ((admit p c req now).1 ≡ err e
            → OneMore req.target req.method c.log (admit p c req now).0.log)
  unfolding admit
  admit-OneMore c req now timeout e up =
      let kept = policy_for-log c req.target now in
      let (c₁, policy) = policy_for p c req.target now in
      let allowed = (allow_request fl policy.limits policy.cells now).1 in
      (
        ground arith,
        λ h. ("0", if allowed then "rate_limited" else "circuit_breaker_open", λ ls. ground arith),
      )

  complete-OneMore :
      (c : Client p) (req : OutboundRequest) (timeout : ℕ) (reply : Reply Response) (now later : ℕ)
      → OneMore req.target req.method c.log (complete p c req timeout reply now later).0.log
  unfolding complete policy_for
  complete-OneMore c req timeout reply now later =
      let kept = policy_for-log c req.target now in
      let (c₁, policy) = policy_for p c req.target now in
      let outcome = execute reply in
      let e =
        (classify p policy.limits policy.cells req.target req.method timeout outcome now later).1 in
      let one =
        classify-counted policy.limits policy.cells req.target req.method timeout outcome now
          later in
      (
        status_of e,
        error_of e,
        λ ls.
            let same = ap (matching ls) kept in
            matching_lem ls e req.target req.method (status_of e) (error_of e)
              (timed req.target req.method ∷ c₁.log) one
            ∙ omega (arith, same),
      )

  longer :
      (c : Client p) (req : OutboundRequest) (a : Attempt p)
      → length c.log ≤ length (send p c req a).0.log
  unfolding send admit complete
  longer c req a = let kept = ap length (policy_for-log c req.target a.asked_at) in ground arith

  send-OneMore :
      (c : Client p) (req : OutboundRequest) (a : Attempt p)
      → c.is_shutting_down ≡ false
      → OneMore req.target req.method c.log (send p c req a).0.log
  unfolding send
  send-OneMore c req a up = elim (Result-cases (admit p c req a.asked_at).1) [
    | inl (timeout, e) ↦
        let kept = (admit-OneMore c req a.asked_at timeout (transient "") up).0 e in
        rw (e, send)
          (subst
            (λ log.
              OneMore req.target req.method log
                (complete p (admit p c req a.asked_at).0 req timeout a.reply a.replied_at
                  a.opened_at).0.log)
            kept
            (complete-OneMore (admit p c req a.asked_at).0 req timeout a.reply a.replied_at
              a.opened_at))
    | inr (error, e) ↦ rw (e, send) ((admit-OneMore c req a.asked_at 0 error up).1 e)
  ]

  -- The state that the log last gave the target is the breaker's, unless the limiter refused.
  send-last_state :
      (c : Client p) (req : OutboundRequest) (a : Attempt p) (q : PolicySet p)
      → c.is_shutting_down ≡ false
      → (admit p c req a.asked_at).1
        ≢ err (transient (format ("rate limited (local) for " ∷ req.target ∷ [])))
      → (send p c req a).0.policies req.target ≡ some q
      → last_state req.target (send p c req a).0.log ≡ some (state_of q.cells)
  unfolding send admit complete set_policy
  send-last_state c req a q up free found = let self = str_eq_self req.target in ground arith

module _ (p : Platform) (lib : Prometheus) (law : IsPrometheus lib) (m : Metrics lib)
    (elapsed : Prometheus.F64 lib) where
  open lib use {S, of_u8}
  open law use {name, total, level}

  -- Unless the client shuts down, a request adds one to `outbound_requests_total`, whatever becomes
  -- of it: to one series, of its target and method, and to no other series. The counter of the
  -- retries must have another name, and the counts fit 53 bits.
  pub send-requests_total :
      (c : Client p) (req : OutboundRequest) (a : Attempt p) (s : S)
      → c.is_shutting_down ≡ false
      → name m.retry_attempts ≢ name m.requests_total
      → ((ls : List String) → total m.requests_total ls s + length (send p c req a).0.log < 2 ^ 53)
      → (status error_type : String) × ((ls : List String)
          → total m.requests_total ls (play_all lib m elapsed (send p c req a).0.log s)
            ≡ total m.requests_total ls (play_all lib m elapsed c.log s)
              + (if same_labels (req.target ∷ req.method ∷ status ∷ error_type ∷ []) ls
                  then 1
                  else 0))
  send-requests_total c req a s up apart few =
      let (status, error_type, one) = send-OneMore p c req a up in
      (
        status,
        error_type,
        λ ls.
            let older = longer p c req a in
            let (before, _) =
              total-play_all lib law m elapsed ls c.log s apart (omega (arith, few ls, older)) in
            let (after, _) =
              total-play_all lib law m elapsed ls (send p c req a).0.log s apart (few ls) in
            omega (arith, before, after, one ls),
      )

  -- After a request that the limiter let through or the breaker refused, the gauge of its target
  -- shows the state of the target's breaker. The client must not be shutting down.
  pub send-state_gauge :
      (c : Client p) (req : OutboundRequest) (a : Attempt p) (q : PolicySet p) (s : S)
      → c.is_shutting_down ≡ false
      → (admit p c req a.asked_at).1
        ≢ err (transient (format ("rate limited (local) for " ∷ req.target ∷ [])))
      → (send p c req a).0.policies req.target ≡ some q
      → level m.state_gauge (req.target ∷ []) (play_all lib m elapsed (send p c req a).0.log s)
        ≡ of_u8 (to_u8 (state_of q.cells))
  send-state_gauge c req a q s up free found =
      level-play_all lib law m elapsed req.target (send p c req a).0.log s
      ∙ ap (shown lib law m elapsed (level m.state_gauge (req.target ∷ []) s))
          (send-last_state p c req a q up free found)
