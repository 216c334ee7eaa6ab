-- ===== src/Resilient/Client/Tests.antt =====
-- The theorems about sequences of requests at concrete runs.
use rust_basics.Prelude.{true, false, ◌⊎◌, err, ok, ℕ, ◌≡◌, refl, some, List, [], ◌∷◌, inr, arith}
use rust_basics.Resilient.Samples.{
  fractions, codes, half, client, request, attempt, target, limits, closed_cells,
}
use rust_basics.Resilient.Breaker.{allow_request, record_failure, record_success}
use rust_basics.Resilient.Request.{
  OutboundRequest, OutboundError, transient, fatal, is_transient, elapsed, execute,
}
use rust_basics.Resilient.Client.{
  Client, PolicySet, Attempt, send, admit, classify, complete, policy_for, new, set_policy,
}
use rust_basics.Resilient.Client.Retry.{send_with_retry}
use rust_basics.Resilient.Client.Feedback.{Heard, send-feedback}
use rust_basics.Resilient.Client.Trip.{AllRefused, send-trip}
use rust_basics.Resilient.Client.Futile.{Refused, send_with_retry-Refused}
use rust_basics.Resilient.Client.Concurrent.{Move, starts, ends, drops, closes, run, Sound}
use rust_basics.Resilient.Client.Concurrent.Runs.{run-Sound}

-- Two requests are admitted, the future of one is dropped, the other gets its reply.
abbrev moves : List (Move codes)
moves = starts request 1 ∷ starts request 2 ∷ drops 0 ∷ closes ∷ ends 0 elapsed 3 4 ∷ []

run-Sound_example :
    Sound codes (
      run codes moves
        (record { client = new codes (target ∷ []) 5000 0; flying = []; dropped = 0 }))
run-Sound_example = run-Sound codes moves (target ∷ []) 5000 0

-- A client whose breaker has one failure in its window, and a policy after the second.
abbrev failing : PolicySet codes
failing = record {
  rate_limiter = 5;
  cells = record closed_cells { window_requests = 1; window_failures = 1 };
  limits = limits;
  config = target;
}

abbrev tripped : PolicySet codes
tripped = record {
  rate_limiter = 4;
  cells = record closed_cells {
    state = 1;
    window_requests = 2;
    window_failures = 2;
    opened_at_ms = 9;
  };
  limits = limits;
  config = target;
}

abbrev shaky : Client codes
shaky = record (client 5) { policies = λ key. some failing }

-- The first attempt fails to connect.
send-feedback_example :
    let (after, result) = send codes shaky request (attempt 0) in
    let asked = (allow_request fractions limits failing.cells 0).0 in
    let failure = record_failure fractions limits asked 0 0 in
    let success = record_success fractions limits asked 0 in
    let allowed = (allow_request fractions limits failing.cells 0).1 in
    ((allowed ≡ true)
      × (true ≡ true)
      × (result ≡ err (transient "refused") → Heard codes shaky request failing after failure)
      × (result ≡ err (fatal "refused") → Heard codes shaky request failing after success)
      × (result ≡ ok 200 → Heard codes shaky request failing after success))
    ⊎ ((e : OutboundError) × ((allowed ≡ false) ⊎ (true ≡ false))
        × (result ≡ err e)
        × (is_transient e ≡ true)
        × Heard codes shaky request failing after asked)
send-feedback_example =
    send-feedback codes shaky request failing (attempt 0) "refused" 200 refl refl

-- Another URL and method of the target, one of another target, and the first request again.
abbrev after_trip : List (OutboundRequest × Attempt codes)
after_trip =
    (record request { method = "PUT"; url = "http://svc/other" }, attempt 20)
    ∷ (record request { target = "else" }, attempt 30)
    ∷ (request, attempt 1000)
    ∷ []

send-trip_example :
    AllRefused codes "svc" tripped after_trip
      (send codes shaky request (record (attempt 0) { opened_at = 9 })).0
unfolding send admit complete policy_for allow_request record_failure set_policy classify execute
send-trip_example =
    send-trip codes shaky request failing (record (attempt 0) { opened_at = 9 }) after_trip tripped
      refl refl (λ e. cc) refl refl (omega arith)
      (inr (omega arith), (inr (omega arith), (inr (omega arith), tt)))

abbrev world : ℕ → Attempt codes
world k = record (attempt k) { opened_at = 9 }

send_with_retry-Refused_example :
    Refused codes half request world
      (send codes shaky request (world 0)).0
      tripped
      (send_with_retry codes half request world shaky 0)
unfolding send admit complete policy_for allow_request record_failure set_policy classify execute
send_with_retry-Refused_example =
    send_with_retry-Refused codes half request world shaky 0 failing tripped refl refl (λ e. cc)
      refl refl (omega arith) (omega arith) λ k low high. omega (arith, high)
