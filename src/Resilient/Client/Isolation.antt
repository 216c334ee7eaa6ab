-- ===== src/Resilient/Client/Isolation.antt =====
-- What a request leaves alone.
use rust_basics.Prelude.{◌+◌, ◌^◌, ◌<◌, ◌≡◌, ◌≢◌, true, String, not_str_eq, err, arith}
use rust_basics.Resilient.Platform.{Platform}
use rust_basics.Resilient.Request.{OutboundRequest, transient, is_transient, OutboundError}
use rust_basics.Resilient.Client.{Client, Attempt, admit, complete, send, set_policy}

module _ (p : Platform) (c : Client p) (req : OutboundRequest) where
  -- A request that has ended is no longer counted as in flight, whatever its outcome was.
  send-in_flight :
      (a : Attempt p) → c.in_flight + 1 < 2 ^ 64 → (send p c req a).0.in_flight ≡ c.in_flight
  unfolding send admit complete
  send-in_flight a small = ground arith

  -- While the client shuts down nothing is sent, and nothing changes.
  send-shutting_down :
      (a : Attempt p)
      → c.is_shutting_down ≡ true
      → send p c req a ≡ (c, err (transient "client is shutting down"))
  unfolding send admit
  send-shutting_down a h = ground arith

  -- The policy of every other target stays as it was.
  pub send_other_policies :
      (a : Attempt p) (k : String) → req.target ≢ k → (send p c req a).0.policies k ≡ c.policies k
  unfolding send admit complete set_policy
  send_other_policies a k ne = let differ = not_str_eq req.target k ne in ground arith

  -- A request that `admit` refuses gets a transient error, and the network makes no difference:
  -- `send` does the same with any other reply.
  send_refused_locally :
      (a b : Attempt p) (e : OutboundError)
      → (admit p c req a.asked_at).1 ≡ err e
      → a.asked_at ≡ b.asked_at
      → (send p c req a ≡ send p c req b) × (is_transient e ≡ true)
  unfolding send admit is_transient
  send_refused_locally a b e h t = (ground arith, ground arith)
