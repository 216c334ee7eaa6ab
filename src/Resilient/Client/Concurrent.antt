-- ===== src/Resilient/Client/Concurrent.antt =====
-- crates/resilient-client/src/client.rs: many calls of `send` at once on one client. A request is
-- admitted, waits for its reply and completes, with others in between, or its future is dropped
-- while it waits.
pub mod Policies
pub mod Runs
use rust_basics.Prelude.{
  ℕ, zero, suc, ◌+◌, ◌%◌, ◌^◌, ◌*◌, ◌≤◌, ◌≡◌, true, Option, none, some, List, [], ◌∷◌, String, ok,
  err, length,
}
use rust_basics.Resilient.Platform.{Platform}
use rust_basics.Resilient.Breaker.{new_limits}
use rust_basics.Resilient.Request.{OutboundRequest, Reply}
use rust_basics.Resilient.Client.{Client, PolicySet, admit, complete}

-- The element at a place, and the others.
abbrev pub take_out {ℓ} : {A : Type ℓ} → ℕ → List A → Option (A × List A)
take_out n [] = none
take_out zero (x ∷ xs) = some (x, xs)
take_out (suc n) (x ∷ xs) = elim (take_out n xs) [
  | none ↦ none
  | some found ↦ some (found.0, x ∷ found.1)
]

module _ (p : Platform) where
  open p use {fl, Response, check}

  -- The client, the requests that wait with their timeouts, and the number of those whose future
  -- was dropped.
  pub record World : Type 0 where
    pub client : Client p
    pub flying : List (OutboundRequest × ℕ)
    pub dropped : ℕ

  -- A request starts at a time; the waiting one at a place gets its reply; its future is dropped;
  -- `shutdown` closes the client.
  pub data Move : Type 0 where
    starts : OutboundRequest → ℕ → Move
    ends : ℕ → Reply Response → ℕ → ℕ → Move
    drops : ℕ → Move
    closes : Move

  unfoldable pub move : Move → World → World
  move (starts req now) w =
      let (c, admitted) = admit p w.client req now in
      elim admitted [
        | err e ↦ record w { client = c }
        | ok timeout ↦ record w { client = c; flying = (req, timeout) ∷ w.flying }
      ]
  move (ends n reply now later) w = elim (take_out n w.flying) [
    | none ↦ w
    | some found ↦ record w {
      client = (complete p w.client found.0.0 found.0.1 reply now later).0;
      flying = found.1;
    }
  ]
  move (drops n) w = elim (take_out n w.flying) [
    | none ↦ w
    | some found ↦ record w { flying = found.1; dropped = w.dropped + 1 }
  ]
  move closes w = record w { client = record w.client { is_shutting_down = true } }

  unfoldable pub run : List Move → World → World
  run [] w = w
  run (m ∷ moves) w = run moves (move m w)

  -- The policy of a key: its configuration has the key for a name, the breaker has the limits of
  -- the configuration and is in one of its three states.
  pub record Stands (key : String) (policy : PolicySet p) : Type 0 where
    pub name_is_key : policy.config.name ≡ key
    pub limits_of_config :
        policy.limits
        ≡ new_limits policy.config.cb_threshold policy.config.cb_min_requests
            (policy.config.cb_window_secs * 1000)
            (policy.config.cb_half_open_timeout_secs * 1000)
    pub state_is_known : policy.cells.state ≤ 2

  abbrev pub AllStand : (String → Option (PolicySet p)) → Type 0
  AllStand policies =
      (key : String) (policy : PolicySet p) → policies key ≡ some policy → Stands key policy

  pub record Sound (w : World) : Type 0 where
    pub policies_stand : AllStand w.client.policies
    pub counted : w.client.in_flight ≡ (length w.flying + w.dropped) % 2 ^ 64
