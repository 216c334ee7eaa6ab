-- ===== src/Resilient/Client/Returns.antt =====
-- `send_with_retry` returns, whatever its policy and the replies are.
use rust_basics.Prelude.{
  ℕ, zero, suc, ◌+◌, ◌-◌, ◌<◌, ◌≡◌, refl, ◌||◌, Option, some, Result, ok, err, arith, leb, inl, inr,
  Bool-cases, Result-cases,
}
use rust_basics.Resilient.Platform.{Platform}
use rust_basics.Resilient.Backoff.{full_jitter}
use rust_basics.Resilient.Config.{OutboundTargetConfig}
use rust_basics.Resilient.Request.{OutboundError, is_fatal, OutboundRequest, retried, slept}
use rust_basics.Resilient.Client.{Client, Attempt, policy_for, emit, send}
use rust_basics.Resilient.Client.Retry.{retry_from, send_with_retry}

module _ (p : Platform) (random : ℕ → ℕ) (req : OutboundRequest) (world : ℕ → Attempt p) where
  open p use {fl, Response}

  abbrev pub Returns : Option (Client p × Result OutboundError Response) → Type 0
  Returns o =
      (last : Client p) × (result : Result OutboundError Response) × (o ≡ some (last, result))

  retry_from-Returns :
      (cfg : OutboundTargetConfig fl) (fuel attempt : ℕ) (c : Client p)
      → cfg.retry_max_attempts - attempt < fuel
      → Returns (retry_from p random req cfg fuel attempt world c)
  unfolding retry_from
  retry_from-Returns cfg zero attempt c h = absurd (omega arith)
  retry_from-Returns cfg (suc fuel) attempt c h =
      elim (Result-cases (send p c req (world attempt)).1) [
        | inl (resp, e) ↦ ((send p c req (world attempt)).0, ok resp, rw (e, retry_from) refl)
        | inr (x, e) ↦ elim (Bool-cases (is_fatal x || leb cfg.retry_max_attempts attempt)) [
          | inl stop ↦ ((send p c req (world attempt)).0, err x, rw (e, retry_from) (rw stop refl))
          | inr again ↦
              let left : attempt < cfg.retry_max_attempts = ground arith in
              let delay = full_jitter fl random (attempt + 1) cfg.retry_base_ms cfg.retry_cap_ms in
              let c' = (send p c req (world attempt)).0 in
              let (last, result, ih) =
                retry_from-Returns cfg fuel (attempt + 1)
                  (emit p (emit p c' (retried req.target)) (slept delay)) (omega arith) in
              (last, result, rw (e, retry_from) (rw again ih))
        ]
      ]

  pub send_with_retry-Returns :
      (c : Client p) (now : ℕ) → Returns (send_with_retry p random req world c now)
  unfolding send_with_retry
  send_with_retry-Returns c now =
      retry_from-Returns (policy_for p c req.target now).1.config _ 0
        (policy_for p c req.target now).0 (omega arith)
