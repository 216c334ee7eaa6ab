-- ===== src/Resilient/Client/Concurrent/Runs.antt =====
-- What holds of the client between any two moves.
use mathlib.Core.Option.{none-ne-some}
use rust_basics.Prelude.{
  ℕ, zero, suc, ◌+◌, ◌-◌, ◌%◌, ◌^◌, ◌≡◌, refl, sym, ◌∙◌, inl, inr, none, some, List, [], ◌∷◌, ok,
  err, length, arith, Option-cases, Result-cases,
}
use rust_basics.Resilient.Platform.{Platform}
use rust_basics.Resilient.Config.{OutboundTargetConfig}
use rust_basics.Resilient.Request.{OutboundError, fatal, OutboundRequest, Reply}
use rust_basics.Resilient.Client.{Client, new, admit, complete}
use rust_basics.Resilient.Client.Concurrent.{
  take_out, World, Move, starts, ends, drops, closes, move, run, Sound,
}
use rust_basics.Resilient.Client.Concurrent.Policies.{
  policies_of-Stands, admit-Stands, complete-Stands,
}

take_out-length {ℓ} :
    {A : Type ℓ} (n : ℕ) (xs : List A) (x : A) (rest : List A)
    → take_out n xs ≡ some (x, rest)
    → length xs ≡ length rest + 1
take_out-length n [] x rest e = cc
take_out-length zero (y ∷ xs) x rest e = ground arith
take_out-length (suc n) (y ∷ xs) x rest e = elim (Option-cases (take_out n xs)) [
  | inl h ↦ absurd (none-ne-some (x, rest) (sym (rw h refl) ∙ e))
  | inr ((z, others), h) ↦ let ih = take_out-length n xs z others h in ground arith
]

module _ (p : Platform) where
  open p use {fl, Response, check}

  admit-in_flight :
      (c : Client p) (req : OutboundRequest) (now timeout : ℕ) (e : OutboundError)
      → ((admit p c req now).1 ≡ ok timeout
          → (admit p c req now).0.in_flight ≡ (c.in_flight + 1) % 2 ^ 64)
        × ((admit p c req now).1 ≡ err e → (admit p c req now).0.in_flight ≡ c.in_flight)
  unfolding admit
  admit-in_flight c req now timeout e = (ground arith, ground arith)

  complete-in_flight :
      (c : Client p) (req : OutboundRequest) (timeout : ℕ) (reply : Reply Response) (now later : ℕ)
      → (complete p c req timeout reply now later).0.in_flight ≡ (c.in_flight + 2 ^ 64 - 1) % 2 ^ 64
  unfolding complete
  complete-in_flight c req timeout reply now later = ground arith

  new-Sound :
      (targets : List (OutboundTargetConfig fl)) (default_timeout now : ℕ)
      → Sound p (record { client = new p targets default_timeout now; flying = []; dropped = 0 })
  unfolding new
  new-Sound targets default_timeout now = record {
    policies_stand = policies_of-Stands p targets now (λ _. none) (λ k q e. cc);
    counted = omega arith;
  }

  move-Sound : (m : Move p) (w : World p) → Sound p w → Sound p (move p m w)
  unfolding move
  move-Sound (starts req now) w s = elim (Result-cases (admit p w.client req now).1) [
    | inl (timeout, e) ↦
        rw (e, move)
          (record {
            policies_stand = admit-Stands p w.client req now s.policies_stand;
            counted =
                let c = (admit-in_flight w.client req now timeout (fatal "")).0 e in
                let d = s.counted in omega (arith, c, d);
          })
    | inr (error, e) ↦
        rw (e, move)
          (record {
            policies_stand = admit-Stands p w.client req now s.policies_stand;
            counted = (admit-in_flight w.client req now 0 error).1 e ∙ s.counted;
          })
  ]
  move-Sound (ends n reply now later) w s = elim (Option-cases (take_out n w.flying)) [
    | inl e ↦ rw (e, move) s
    | inr ((found, rest), e) ↦
        let fewer = take_out-length n w.flying found rest e in
        rw (e, move)
          (record {
            policies_stand =
                complete-Stands p w.client found.0 found.1 reply now later s.policies_stand;
            counted =
                let c = complete-in_flight w.client found.0 found.1 reply now later in
                let d = s.counted in omega (arith, c, d, fewer);
          })
  ]
  move-Sound (drops n) w s = elim (Option-cases (take_out n w.flying)) [
    | inl e ↦ rw (e, move) s
    | inr ((found, rest), e) ↦
        let fewer = take_out-length n w.flying found rest e in
        rw (e, move)
          (record {
            policies_stand = s.policies_stand;
            counted = let d = s.counted in omega (arith, d, fewer);
          })
  ]
  move-Sound closes w s = record { policies_stand = s.policies_stand; counted = s.counted }

  -- However the calls of `send` interleave on a client that `new` built, whatever the replies are and
  -- whichever futures are dropped: every policy of the map has its key for a name, the limits of its
  -- configuration and a known state, and `in_flight` counts, modulo 2 ^ 64, the requests that wait
  -- and all those that were ever dropped while they waited.
  pub run-Sound :
      (moves : List (Move p)) (targets : List (OutboundTargetConfig fl)) (default_timeout now : ℕ)
      → Sound p (
          run p moves
            (record { client = new p targets default_timeout now; flying = []; dropped = 0 }))
  unfolding run
  run-Sound moves targets default_timeout now =
      steps moves _ (new-Sound targets default_timeout now)
    where
      steps : (moves : List (Move p)) (w : World p) → Sound p w → Sound p (run p moves w)
      steps [] w s = s
      steps (m ∷ moves) w s = steps moves (move p m w) (move-Sound m w s)
