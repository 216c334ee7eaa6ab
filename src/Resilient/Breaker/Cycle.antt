-- ===== src/Resilient/Breaker/Cycle.antt =====
-- How the circuit breaker opens, refuses, probes and recovers, call by call.
use rust_basics.Prelude.{
  ℕ, ◌+◌, ◌-◌, ◌≤◌, ◌<◌, ◌≡◌, refl, ◌↔◌, Bool, true, false, List, [], ◌∷◌, map, All, arith,
}
use rust_basics.Resilient.Float.{Float}
use rust_basics.Resilient.Breaker.{
  closed, open_, half_open, Cells, Limits, state_of, allow_request, open_circuit, record_success,
  record_failure,
}

module _ (fl : Float) (l : Limits (Float.F64 fl)) where
  -- The callers that ask at the given times, one after the other, and their answers.
  pub ask : Cells → List ℕ → Cells × List Bool
  ask c [] = (c, [])
  ask c (now ∷ times) =
      let (c', answer) = allow_request fl l c now in
      let (c'', answers) = ask c' times in (c'', answer ∷ answers)

  -- An open circuit lets a request through exactly when it was opened at a known time and the
  -- timeout has passed since; then it is half open, and otherwise as it was.
  allow_request-open :
      (c : Cells) (now : ℕ)
      → state_of c ≡ open_
      → (((allow_request fl l c now).1 ≡ true)
          ↔ ((0 < c.opened_at_ms) × (l.half_open_timeout_ms ≤ now - c.opened_at_ms)))
        × (((allow_request fl l c now).1 ≡ true)
            → state_of (allow_request fl l c now).0 ≡ half_open)
        × (((allow_request fl l c now).1 ≡ false) → (allow_request fl l c now).0 ≡ c)
  unfolding allow_request
  allow_request-open c now o = (ground arith, ground arith, ground arith)

  refused_at :
      (c : Cells) (opened now : ℕ)
      → 0 < l.half_open_timeout_ms
      → now < opened + l.half_open_timeout_ms
      → allow_request fl l (open_circuit fl c opened) now ≡ (open_circuit fl c opened, false)
  unfolding allow_request open_circuit
  refused_at c opened now pos h = ground arith

  -- With a timeout above 0, every request between the opening of the circuit and the timeout is
  -- refused, and none of them changes the breaker.
  refuses_until :
      (c : Cells) (opened : ℕ) (times : List ℕ)
      → 0 < l.half_open_timeout_ms
      → All (λ t. t < opened + l.half_open_timeout_ms) times
      → ask (open_circuit fl c opened) times ≡ (open_circuit fl c opened, map (λ _. false) times)
  unfolding ask
  refuses_until c opened [] pos h = refl
  refuses_until c opened (t ∷ times) pos h =
      rw (refused_at c opened t pos h.0, refuses_until c opened times pos h.1)

  asked_half_open :
      (c : Cells) (now : ℕ) → state_of c ≡ half_open → allow_request fl l c now ≡ (c, true)
  unfolding allow_request
  asked_half_open c now h = ground arith

  -- A half-open circuit refuses nobody, however many ask before the probe has answered.
  half_open_admits_all :
      (c : Cells) (times : List ℕ)
      → state_of c ≡ half_open
      → ask c times ≡ (c, map (λ _. true) times)
  unfolding ask
  half_open_admits_all c [] h = refl
  half_open_admits_all c (t ∷ times) h = rw (asked_half_open c t h, half_open_admits_all c times h)

  -- The probe decides: its success closes the circuit on an empty window, its failure opens the
  -- circuit anew from the time of the failure.
  probe_decides :
      (c : Cells) (opened asked now later : ℕ)
      → 0 < opened
      → opened + l.half_open_timeout_ms ≤ asked
      → let p = allow_request fl l (open_circuit fl c opened) asked in
        let s = record_success fl l p.0 now in
        let f = record_failure fl l p.0 now later in
        (p.1 ≡ true)
        × (state_of s ≡ closed)
        × (s.window_requests ≡ 0)
        × (s.window_failures ≡ 0)
        × (s.window_start_ms ≡ now)
        × (f ≡ open_circuit fl c later)
  unfolding allow_request open_circuit record_success record_failure
  probe_decides c opened asked now later h k =
      (ground arith, ground arith, ground arith, ground arith, ground arith, ground arith)
