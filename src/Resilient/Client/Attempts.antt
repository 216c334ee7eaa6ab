-- ===== src/Resilient/Client/Attempts.antt =====
-- How often `send_with_retry` tries, and what it waits for.
use rust_basics.Prelude.{
  ℕ, zero, suc, ◌+◌, ◌-◌, ◌^◌, ◌≤◌, ◌<◌, ◌≡◌, refl, ◌∙◌, ◌||◌, false, Option, some, List, [], ◌∷◌,
  Result, ok, err, arith, leb, inl, inr, Bool-cases, Result-cases, String,
}
use rust_basics.Resilient.Float.{Float, IsExact}
use rust_basics.Resilient.Platform.{Platform}
use rust_basics.Resilient.Breaker.{Cells, Limits}
use rust_basics.Resilient.Backoff.{full_jitter, full_jitter-le-cap}
use rust_basics.Resilient.Config.{OutboundTargetConfig}
use rust_basics.Resilient.Request.{
  OutboundError, is_fatal, OutboundRequest, Reply, execute, Effect, counted, timed, cb_state,
  retried, slept, ExecErr, timed_out, connect, other,
}
use rust_basics.Resilient.Client.{
  Client, Attempt, policy_for, emit, admit, classify, complete, send,
}
use rust_basics.Resilient.Client.Tries.{tries, send-tries, send-is_shutting_down}
use rust_basics.Resilient.Client.Retry.{retry_from, send_with_retry}

-- The retries that a log counts.
abbrev pub retries : List Effect → ℕ
retries [] = 0
retries (retried _ ∷ log) = suc (retries log)
retries (counted _ _ _ _ ∷ log) = retries log
retries (timed _ _ ∷ log) = retries log
retries (cb_state _ _ ∷ log) = retries log
retries (slept _ ∷ log) = retries log

-- No sleep in the log is longer than `cap`.
abbrev pub SleepsWithin : ℕ → List Effect → Type 0
SleepsWithin cap [] = Unit {0}
SleepsWithin cap (slept n ∷ log) = (n ≤ cap) × SleepsWithin cap log
SleepsWithin cap (retried _ ∷ log) = SleepsWithin cap log
SleepsWithin cap (counted _ _ _ _ ∷ log) = SleepsWithin cap log
SleepsWithin cap (timed _ _ ∷ log) = SleepsWithin cap log
SleepsWithin cap (cb_state _ _ ∷ log) = SleepsWithin cap log

-- `new` has the retries of `old`, and no longer sleep.
abbrev Quiet : List Effect → List Effect → Type 0
Quiet old new =
    (retries new ≡ retries old) × ((cap : ℕ) → SleepsWithin cap old → SleepsWithin cap new)

Quiet-trans : (a b c : List Effect) → Quiet a b → Quiet b c → Quiet a c
Quiet-trans a b c (p, f) (q, g) = (q ∙ p, λ cap h. g cap (f cap h))

module _ (p : Platform) where
  open p use {fl, Response}

  classify-Quiet :
      (l : Limits (Float.F64 fl)) (cb : Cells) (key method : String) (timeout : ℕ)
      (outcome : Result ExecErr Response) (now later : ℕ) (log : List Effect)
      → Quiet log ((classify p l cb key method timeout outcome now later).1 ∷ log)
  unfolding classify
  classify-Quiet l cb key method timeout (ok r) now later log =
      (ground arith, λ cap h. ground arith)
  classify-Quiet l cb key method timeout (err timed_out) now later log = (refl, λ cap h. h)
  classify-Quiet l cb key method timeout (err (connect m)) now later log = (refl, λ cap h. h)
  classify-Quiet l cb key method timeout (err (other m)) now later log = (refl, λ cap h. h)

  policy_for-log : (c : Client p) (key : String) (now : ℕ) → (policy_for p c key now).0.log ≡ c.log
  unfolding policy_for
  policy_for-log c key now = ground arith

  policy_for-is_shutting_down :
      (c : Client p) (key : String) (now : ℕ)
      → (policy_for p c key now).0.is_shutting_down ≡ c.is_shutting_down
  unfolding policy_for
  policy_for-is_shutting_down c key now = ground arith

  admit-Quiet :
      (c : Client p) (req : OutboundRequest) (now : ℕ) → Quiet c.log (admit p c req now).0.log
  unfolding admit
  admit-Quiet c req now = (ground arith, λ cap h. ground arith)

  complete-Quiet :
      (c : Client p) (req : OutboundRequest) (timeout : ℕ) (reply : Reply Response) (now later : ℕ)
      → Quiet c.log (complete p c req timeout reply now later).0.log
  unfolding complete
  complete-Quiet c req timeout reply now later =
      let policy = (policy_for p c req.target now).1 in
      rw (policy_for-log c req.target now) (
        classify-Quiet policy.limits policy.cells req.target req.method timeout (execute reply) now
          later (timed req.target req.method ∷ c.log))

  send-Quiet :
      (c : Client p) (req : OutboundRequest) (a : Attempt p) → Quiet c.log (send p c req a).0.log
  unfolding send
  send-Quiet c req a =
      let admitted = admit-Quiet c req a.asked_at in
      let c' = (admit p c req a.asked_at).0 in
      elim (Result-cases (admit p c req a.asked_at).1) [
        | inl (timeout, e) ↦
            rw (e, send)
              (Quiet-trans c.log c'.log
                (complete p c' req timeout a.reply a.replied_at a.opened_at).0.log admitted
                (complete-Quiet c' req timeout a.reply a.replied_at a.opened_at))
        | inr (x, e) ↦ rw (e, send) admitted
      ]

  -- What the loop promises: it ends; unless the client shuts down, it counts one request for each try
  -- and one retry for each further try; the retries are no more than the policy allows; it gives up on a transient error only when all are used, and no sleep is longer
  -- than the cap.
  pub record Ends (cfg : OutboundTargetConfig fl) (attempt : ℕ) (c : Client p)
      (r : Option (Client p × Result OutboundError Response)) : Type 0 where
    pub last : Client p
    pub result : Result OutboundError Response
    pub ended : r ≡ some (last, result)
    pub tried :
        c.is_shutting_down ≡ false
        → tries last.log + retries c.log ≡ suc (tries c.log + retries last.log)
    pub few : retries last.log ≤ retries c.log + (cfg.retry_max_attempts - attempt)
    pub used_up :
        (e : OutboundError)
        → result ≡ err e
        → is_fatal e ≡ false
        → retries last.log ≡ retries c.log + (cfg.retry_max_attempts - attempt)
    pub short : SleepsWithin cfg.retry_cap_ms c.log → SleepsWithin cfg.retry_cap_ms last.log

  module _ (exact : IsExact fl) (random : ℕ → ℕ) (in_range : (c : ℕ) → random c ≤ c)
      (req : OutboundRequest) (cfg : OutboundTargetConfig fl) (world : ℕ → Attempt p)
      (small : cfg.retry_cap_ms ≤ 2 ^ 53) where
    retry_from-Ends :
        (fuel attempt : ℕ) (c : Client p)
        → cfg.retry_max_attempts - attempt < fuel
        → Ends cfg attempt c (retry_from p random req cfg fuel attempt world c)
    unfolding retry_from
    retry_from-Ends zero attempt c h = absurd (omega arith)
    retry_from-Ends (suc fuel) attempt c h =
        let quiet = send-Quiet c req (world attempt) in
        let c' = (send p c req (world attempt)).0 in
        let max = cfg.retry_max_attempts in
        elim (Result-cases (send p c req (world attempt)).1) [
          | inl (resp, e) ↦ record {
            last = c';
            result = ok resp;
            ended = rw (e, retry_from);
            tried = λ up. omega (arith, quiet.0, send-tries p c req (world attempt) up);
            few = omega (arith, quiet.0);
            used_up = λ x q. cc;
            short = quiet.1 cfg.retry_cap_ms;
          }
          | inr (x, e) ↦ elim (Bool-cases (is_fatal x || leb max attempt)) [
            | inl stop ↦ record {
              last = c';
              result = err x;
              ended = rw (e, retry_from) (rw stop);
              tried = λ up. omega (arith, quiet.0, send-tries p c req (world attempt) up);
              few = omega (arith, quiet.0);
              used_up = λ y q soft. ground (arith, quiet.0);
              short = quiet.1 cfg.retry_cap_ms;
            }
            | inr again ↦
                let delay =
                  full_jitter fl random (attempt + 1) cfg.retry_base_ms cfg.retry_cap_ms in
                let c'' = emit p (emit p c' (retried req.target)) (slept delay) in
                let left : attempt < max = ground arith in
                let ih = retry_from-Ends fuel (attempt + 1) c'' (omega arith) in
                record {
                  last = ih.last;
                  result = ih.result;
                  ended = rw (e, retry_from) (rw again ih.ended);
                  tried = λ up.
                      let once = send-tries p c req (world attempt) up in
                      let still = send-is_shutting_down p c req (world attempt) ∙ up in
                      omega (arith, quiet.0, once, ih.tried still);
                  few = omega (arith, quiet.0, ih.few);
                  used_up = λ y q soft. omega (arith, quiet.0, ih.used_up y q soft);
                  short = λ h. ih.short (
                    full_jitter-le-cap fl exact random in_range (attempt + 1) cfg.retry_base_ms
                        cfg.retry_cap_ms small,
                    quiet.1 cfg.retry_cap_ms h,
                  );
                }
          ]
        ]

  -- `send_with_retry` always ends. Of a client that is not shutting down, its log counts one request
  -- for each try, and one retry for each try after the first, so one request more than retries. The
  -- retries are at most `retry_max_attempts`, also while the client shuts down; it gives up on a transient error only when all of them are used;
  -- and where the cap of the target's policy is a number that `f64` represents exactly, it never
  -- sleeps for longer than the cap.
  pub send_with_retry-Ends :
      (exact : IsExact fl) (random : ℕ → ℕ) (in_range : (c : ℕ) → random c ≤ c)
      (req : OutboundRequest) (world : ℕ → Attempt p) (c : Client p) (now : ℕ)
      → (policy_for p c req.target now).1.config.retry_cap_ms ≤ 2 ^ 53
      → Ends (policy_for p c req.target now).1.config 0 c (send_with_retry p random req world c now)
  unfolding send_with_retry
  send_with_retry-Ends exact random in_range req world c now small =
      let cfg = (policy_for p c req.target now).1.config in
      let c₁ = (policy_for p c req.target now).0 in
      let same = policy_for-log c req.target now in
      let stays = policy_for-is_shutting_down c req.target now in
      let loop =
        retry_from-Ends exact random in_range req cfg world small (suc cfg.retry_max_attempts) 0 c₁
          (omega arith) in
      record {
        last = loop.last;
        result = loop.result;
        ended = loop.ended;
        tried = λ up. rw same at loop.tried (stays ∙ up);
        few = rw same at loop.few;
        used_up = rw same at loop.used_up;
        short = rw same at loop.short;
      }
