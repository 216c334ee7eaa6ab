-- ===== src/Resilient/Client.antt =====
-- crates/resilient-client/src/client.rs: the client's state, and `send` in its two parts, `admit` up
-- to the wait for the network and `complete` after it.
-- Shared objects are one record; a map is a function from its keys; the calls of the metrics
-- library, and the sleeps between tries, are logged, newest first.
pub mod Outcome
pub mod Feedback
pub mod Isolation
pub mod Retry
pub mod Tries
pub mod Attempts
pub mod Returns
pub mod Concurrent
pub mod Trip
pub mod Futile
mod Tests
use rust_basics.Prelude.{
  ℕ, ◌+◌, ◌-◌, ◌*◌, ◌%◌, ◌^◌, Bool, true, false, ◌&&◌, ◌||◌, Option, none, some, List, [], ◌∷◌,
  String, str_eq, format, decimal, Result, ok, err, ◌==◌, if◌then◌else◌, max,
}
use rust_basics.Resilient.Float.{Float}
use rust_basics.Resilient.Platform.{Platform}
use rust_basics.Resilient.Breaker.{
  Cells, Limits, state_of, new_cells, new_limits, allow_request, record_success, record_failure,
}
use rust_basics.Resilient.Config.{OutboundTargetConfig, fallback, timeout}
use rust_basics.Resilient.Request.{
  OutboundError, transient, fatal, OutboundRequest, Effect, counted, timed, cb_state, ExecErr,
  timed_out, connect, other, Reply, execute,
}

module _ (p : Platform) where
  open p use {
    fl, Limiter, per_second, check, Response, status, is_success, is_redirection, is_server_error,
    debug_duration,
  }

  pub record PolicySet : Type 0 where
    pub rate_limiter : Limiter
    pub cells : Cells
    pub limits : Limits (Float.F64 fl)
    pub config : OutboundTargetConfig fl

  -- `PolicySet::from_config` at the time `now`.
  unfoldable pub from_config : OutboundTargetConfig fl → ℕ → PolicySet
  from_config cfg now = record {
    rate_limiter = per_second (max cfg.rate_limit 1);
    cells = new_cells now;
    limits =
        new_limits cfg.cb_threshold cfg.cb_min_requests (cfg.cb_window_secs * 1000)
          (cfg.cb_half_open_timeout_secs * 1000);
    config = cfg;
  }

  pub record Client : Type 0 where
    pub policies : String → Option PolicySet
    pub default_timeout : ℕ
    pub is_shutting_down : Bool
    pub in_flight : ℕ  -- usize
    pub notified : Bool
    pub log : List Effect

  unfoldable pub set_policy :
      String → PolicySet → (String → Option PolicySet) → String → Option PolicySet
  set_policy key policy policies k = if str_eq key k then some policy else policies k

  -- The policies of `ResilientHttpClient::new`.
  unfoldable pub policies_of :
      List (OutboundTargetConfig fl) → ℕ → (String → Option PolicySet) → String → Option PolicySet
  policies_of [] now policies = policies
  policies_of (t ∷ targets) now policies =
      policies_of targets now (set_policy t.name (from_config t now) policies)

  unfoldable pub new : List (OutboundTargetConfig fl) → ℕ → ℕ → Client
  new targets default_timeout now = record {
    policies = policies_of targets now (λ _. none);
    default_timeout = default_timeout;
    is_shutting_down = false;
    in_flight = 0;
    notified = false;
    log = [];
  }

  -- The policy at `key`; an unknown key gets a fallback policy, which is kept.
  unfoldable pub policy_for : Client → String → ℕ → Client × PolicySet
  policy_for c key now = elim (c.policies key) [
    | some policy ↦ (c, policy)
    | none ↦
        let policy = from_config (fallback fl key) now in
        (record c { policies = set_policy key policy c.policies }, policy)
  ]

  abbrev pub emit : Client → Effect → Client
  emit c e = record c { log = e ∷ c.log }

  abbrev pub put : Client → String → PolicySet → Client
  put c key policy = record c { policies = set_policy key policy c.policies }

  -- `send` up to the wait: the error, or the timeout with which the request goes out.
  unfoldable pub admit : Client → OutboundRequest → ℕ → Client × Result OutboundError ℕ
  unfolding policy_for
  admit c req now =
      if c.is_shutting_down
      then (c, err (transient "client is shutting down"))
      else let (c₁, policy) = policy_for c req.target now in
        let (cells, allowed) = allow_request fl policy.limits policy.cells now in
        let asked = record policy { cells = cells } in
        let (limiter, free) = check policy.rate_limiter now in
        let limited = record asked { rate_limiter = limiter } in
        if allowed
        then (if free
            then (
              record (put c₁ req.target limited) { in_flight = (c₁.in_flight + 1) % 2 ^ 64 },
              ok (timeout fl policy.config c₁.default_timeout),
            )
            else (
              emit (put c₁ req.target limited) (counted req.target req.method "0" "rate_limited"),
              err (transient (format ("rate limited (local) for " ∷ req.target ∷ []))),
            ))
        else (
          emit (emit (put c₁ req.target asked) (cb_state req.target (state_of cells)))
              (counted req.target req.method "0" "circuit_breaker_open"),
          err (transient (format ("circuit breaker open for " ∷ req.target ∷ []))),
        )

  -- `classify`: the breaker hears of the outcome, a counter counts it, and the caller gets the
  -- response or an error. `now` and `later` are the breaker's readings of the clock.
  unfoldable pub classify :
      Limits (Float.F64 fl)
      → Cells
      → String
      → String
      → ℕ
      → Result ExecErr Response
      → ℕ
      → ℕ
      → Cells × Effect × Result OutboundError Response
  classify l cb key method timeout (ok resp) now later =
      let n = status resp in
      let code = decimal n in
      let good = record_success fl l cb now in
      let bad = record_failure fl l cb now later in
      if is_success n || is_redirection n
      then (good, counted key method code "ok", ok resp)
      else if n == 429
      then (
        bad,
        counted key method code "rate_limited_upstream",
        err (transient (format ("429 from " ∷ key ∷ []))),
      )
      else if is_server_error n
      then (
        bad,
        counted key method code "server_error",
        err (transient (format (code ∷ " server error from " ∷ key ∷ []))),
      )
      else (
        good,
        counted key method code "client_error",
        err (fatal (format (code ∷ " client error from " ∷ key ∷ []))),
      )
  classify l cb key method timeout (err timed_out) now later = (
    record_failure fl l cb now later,
    counted key method "0" "timeout",
    err (
        transient
          (format ("request to " ∷ key ∷ " timed out after " ∷ debug_duration timeout ∷ []))),
  )
  classify l cb key method timeout (err (connect message)) now later = (
    record_failure fl l cb now later,
    counted key method "0" "connect_error",
    err (transient message),
  )
  classify l cb key method timeout (err (other message)) now later =
      (record_failure fl l cb now later, counted key method "0" "error", err (transient message))

  unfoldable pub finish_in_flight : Client → Client
  finish_in_flight c = record c {
    in_flight = (c.in_flight + 2 ^ 64 - 1) % 2 ^ 64;
    notified = c.notified || (c.in_flight == 1 && c.is_shutting_down);
  }

  -- `send` from the reply on. The policy that `admit` took is the entry of the map: entries are
  -- shared and never replaced.
  unfoldable pub complete :
      Client → OutboundRequest → ℕ → Reply Response → ℕ → ℕ → Client × Result OutboundError Response
  unfolding policy_for finish_in_flight
  complete c req timeout reply now later =
      let (c₁, policy) = policy_for c req.target now in
      let (cells, effect, result) =
        classify policy.limits policy.cells req.target req.method timeout (execute reply) now
          later in
      let c₂ = emit (emit c₁ (timed req.target req.method)) effect in
      let c₃ =
        emit (put c₂ req.target (record policy { cells = cells }))
          (cb_state req.target (state_of cells)) in
      (finish_in_flight c₃, result)

  -- What the world does during one `send`: the clock at the start and at the end, and the reply.
  pub record Attempt : Type 0 where
    pub asked_at : ℕ
    pub reply : Reply Response
    pub replied_at : ℕ
    pub opened_at : ℕ

  -- `send` with no other request in between.
  unfoldable pub send : Client → OutboundRequest → Attempt → Client × Result OutboundError Response
  send c req a =
      let (c', admitted) = admit c req a.asked_at in
      elim admitted [
        | err e ↦ (c', err e)
        | ok timeout ↦ complete c' req timeout a.reply a.replied_at a.opened_at
      ]
