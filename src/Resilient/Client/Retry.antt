-- ===== src/Resilient/Client/Retry.antt =====
-- crates/resilient-client/src/client.rs: `send_with_retry`.
use rust_basics.Prelude.{
  ℕ, zero, suc, ◌+◌, ◌||◌, Option, none, some, Result, ok, err, leb, if◌then◌else◌,
}
use rust_basics.Resilient.Platform.{Platform}
use rust_basics.Resilient.Backoff.{full_jitter}
use rust_basics.Resilient.Config.{OutboundTargetConfig}
use rust_basics.Resilient.Request.{OutboundError, is_fatal, OutboundRequest, retried, slept}
use rust_basics.Resilient.Client.{Client, Attempt, policy_for, emit, send}

module _ (p : Platform) where
  open p use {fl, Response}

  -- The loop of `send_with_retry`; `none` means that the fuel ran out.
  unfoldable pub retry_from :
      (ℕ → ℕ)
      → OutboundRequest
      → OutboundTargetConfig fl
      → ℕ
      → ℕ
      → (ℕ → Attempt p)
      → Client p
      → Option (Client p × Result OutboundError Response)
  retry_from random req cfg zero attempt world c = none
  retry_from random req cfg (suc fuel) attempt world c =
      let (c₁, result) = send p c req (world attempt) in
      let delay = full_jitter fl random (attempt + 1) cfg.retry_base_ms cfg.retry_cap_ms in
      let again =
        retry_from random req cfg fuel (attempt + 1) world
          (emit p (emit p c₁ (retried req.target)) (slept delay)) in
      elim result [
        | ok resp ↦ some (c₁, ok resp)
        | err e ↦
            if is_fatal e || leb cfg.retry_max_attempts attempt then some (c₁, err e) else again
      ]

  -- As many tries as the policy allows, and one more.
  unfoldable pub send_with_retry :
      (ℕ → ℕ)
      → OutboundRequest
      → (ℕ → Attempt p)
      → Client p
      → ℕ
      → Option (Client p × Result OutboundError Response)
  unfolding policy_for
  send_with_retry random req world c now =
      let (c₁, policy) = policy_for p c req.target now in
      retry_from random req policy.config (suc policy.config.retry_max_attempts) 0 world c₁
