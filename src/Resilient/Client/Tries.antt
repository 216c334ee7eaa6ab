-- ===== src/Resilient/Client/Tries.antt =====
-- What one call of `send` always does: it counts one request, and the client stays up.
use rust_basics.Prelude.{
  ℕ, suc, ◌≡◌, refl, ◌∙◌, ap, false, List, [], ◌∷◌, String, Result, ok, err, arith, inl, inr,
  Result-cases,
}
use rust_basics.Resilient.Float.{Float}
use rust_basics.Resilient.Platform.{Platform}
use rust_basics.Resilient.Breaker.{Cells, Limits}
use rust_basics.Resilient.Request.{
  OutboundError, transient, OutboundRequest, Reply, execute, Effect, counted, timed, cb_state,
  retried, slept, ExecErr, timed_out, connect, other,
}
use rust_basics.Resilient.Client.{Client, Attempt, policy_for, admit, classify, complete, send}

-- The requests that a log counts.
abbrev pub tries : List Effect → ℕ
tries [] = 0
tries (counted _ _ _ _ ∷ log) = suc (tries log)
tries (retried _ ∷ log) = tries log
tries (timed _ _ ∷ log) = tries log
tries (cb_state _ _ ∷ log) = tries log
tries (slept _ ∷ log) = tries log

module _ (p : Platform) where
  open p use {fl, Response}

  tries-classify :
      (l : Limits (Float.F64 fl)) (cb : Cells) (key method : String) (timeout : ℕ)
      (outcome : Result ExecErr Response) (now later : ℕ) (log : List Effect)
      → tries ((classify p l cb key method timeout outcome now later).1 ∷ log) ≡ suc (tries log)
  unfolding classify
  tries-classify l cb key method timeout (ok r) now later log = ground arith
  tries-classify l cb key method timeout (err timed_out) now later log = refl
  tries-classify l cb key method timeout (err (connect m)) now later log = refl
  tries-classify l cb key method timeout (err (other m)) now later log = refl

  log-policy_for : (c : Client p) (key : String) (now : ℕ) → (policy_for p c key now).0.log ≡ c.log
  unfolding policy_for
  log-policy_for c key now = ground arith

  tries-admit :
      (c : Client p) (req : OutboundRequest) (now timeout : ℕ) (e : OutboundError)
      → c.is_shutting_down ≡ false
      → let (c', result) = admit p c req now in
        (result ≡ ok timeout → tries c'.log ≡ tries c.log)
        × (result ≡ err e → tries c'.log ≡ suc (tries c.log))
  unfolding admit
  tries-admit c req now timeout e up =
      let kept = ap tries (log-policy_for c req.target now) in (ground arith, ground arith)

  tries-complete :
      (c : Client p) (req : OutboundRequest) (timeout : ℕ) (reply : Reply Response) (now later : ℕ)
      → tries (complete p c req timeout reply now later).0.log ≡ suc (tries c.log)
  unfolding complete
  tries-complete c req timeout reply now later =
      let policy = (policy_for p c req.target now).1 in
      rw (log-policy_for c req.target now) (
        tries-classify policy.limits policy.cells req.target req.method timeout (execute reply) now
          later (timed req.target req.method ∷ c.log))

  module _ (c : Client p) (req : OutboundRequest) (a : Attempt p) where
    pub send-tries : c.is_shutting_down ≡ false → tries (send p c req a).0.log ≡ suc (tries c.log)
    unfolding send
    send-tries up = elim (Result-cases (admit p c req a.asked_at).1) [
      | inl (timeout, e) ↦
          let c' = (admit p c req a.asked_at).0 in
          rw (e, send)
            (tries-complete c' req timeout a.reply a.replied_at a.opened_at
              ∙ ap suc ((tries-admit c req a.asked_at timeout (transient "") up).0 e))
      | inr (x, e) ↦ rw (e, send) ((tries-admit c req a.asked_at 0 x up).1 e)
    ]

    pub send-is_shutting_down : (send p c req a).0.is_shutting_down ≡ c.is_shutting_down
    unfolding send admit complete policy_for
    send-is_shutting_down = ground arith
