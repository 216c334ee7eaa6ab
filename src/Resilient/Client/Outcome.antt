-- ===== src/Resilient/Client/Outcome.antt =====
-- What a reply means to the breaker and to the caller.
use rust_basics.Prelude.{
  ℕ, ◌≤◌, ◌<◌, ◌≡◌, ◌≢◌, ◌↔◌, ◌⊎◌, Bool, true, false, refl, sym, ◌∙◌, ap, subst, false≢true, String,
  Result, ok, err, arith,
}
use rust_basics.Resilient.Float.{Float}
use rust_basics.Resilient.Platform.{Platform, IsHttp}
use rust_basics.Resilient.Breaker.{Cells, Limits, record_success, record_failure}
use rust_basics.Resilient.Request.{
  OutboundError, is_fatal, transient, fatal, ExecErr, timed_out, connect, other, Reply, elapsed,
  failed, responded, execute,
}
use rust_basics.Resilient.Client.{classify}

module _ (p : Platform) (l : Limits (Float.F64 (Platform.fl p))) (cb : Cells) (key method : String)
    (timeout now later : ℕ) where
  open p use {fl, Response, status}

  -- Of an outcome that is classified the breaker hears of a failure exactly when the caller gets a
  -- transient error: with a response or a fatal error it hears of a success.
  pub classify_feedback :
      (outcome : Result ExecErr Response) (message : String) (resp : Response)
      → let (cells, _, result) = classify p l cb key method timeout outcome now later in
        (result ≡ err (transient message) → cells ≡ record_failure fl l cb now later)
        × (result ≡ err (fatal message) → cells ≡ record_success fl l cb now)
        × (result ≡ ok resp → cells ≡ record_success fl l cb now)
  unfolding classify
  classify_feedback (ok r) message resp = (ground arith, ground arith, ground arith)
  classify_feedback (err timed_out) message resp = (ground arith, ground arith, ground arith)
  classify_feedback (err (connect m)) message resp = (ground arith, ground arith, ground arith)
  classify_feedback (err (other m)) message resp = (ground arith, ground arith, ground arith)

  -- A status that is neither a success, a redirection, a 429 nor a server error.
  abbrev pub IsRejection : ℕ → Type 0
  IsRejection n = (n < 200) ⊎ ((400 ≤ n) × (n < 500) × (n ≢ 429)) ⊎ (600 ≤ n)

  -- The reply is a response, of such a status.
  abbrev pub Responds : (ℕ → Type 0) → Reply Response → Type 0
  Responds P reply = (r : Response) × (reply ≡ responded r) × P (status r)

  abbrev pub IsAccepted : ℕ → Type 0
  IsAccepted n = (200 ≤ n) × (n < 400)

  IsAccepted-status :
      (r : Response) (resp : Response)
      → IsHttp p
      → let result = (classify p l cb key method timeout (ok r) now later).2 in
        (result ≡ ok resp → IsAccepted (status r)) × (IsAccepted (status r) → result ≡ ok r)
  unfolding classify
  IsAccepted-status r resp http =
      let a = http.success_range (status r) in
      let b = http.redirection_range (status r) in
      let c = http.server_error_range (status r) in (ground arith, ground arith)

  IsRejection-status :
      (r : Response) (e : OutboundError)
      → IsHttp p
      → (classify p l cb key method timeout (ok r) now later).2 ≡ err e
      → (is_fatal e ≡ true) ↔ IsRejection (status r)
  unfolding classify is_fatal
  IsRejection-status r e http =
      let a = http.success_range (status r) in
      let b = http.redirection_range (status r) in
      let c = http.server_error_range (status r) in ground arith

  failure_soft :
      (x : ExecErr) (e : OutboundError)
      → (classify p l cb key method timeout (err x) now later).2 ≡ err e
      → is_fatal e ≡ false
  unfolding classify is_fatal
  failure_soft timed_out e h = ground arith
  failure_soft (connect m) e h = ground arith
  failure_soft (other m) e h = ground arith

  execute_failed :
      (t c : Bool) (message : String)
      → (x : ExecErr) × (◌≡◌ {A = Result ExecErr Response} (execute (failed t c message)) (err x))
  unfolding execute
  execute_failed true c message = (timed_out, refl)
  execute_failed false true message = (connect message, refl)
  execute_failed false false message = (other message, refl)

  -- What the caller is told of an outcome, in terms of the reply.
  abbrev pub Told : Result ExecErr Response → Reply Response → OutboundError → Type 0
  Told outcome reply e =
      let result = (classify p l cb key method timeout outcome now later).2 in
      (((resp : Response) × (result ≡ ok resp)) ↔ Responds IsAccepted reply)
      × (result ≡ err e → (is_fatal e ≡ true) ↔ Responds IsRejection reply)

  no_response :
      (x : ExecErr) (resp : Response)
      → (classify p l cb key method timeout (err x) now later).2 ≡ ok resp
      → ⊥
  unfolding classify
  no_response timed_out resp h = cc
  no_response (connect m) resp h = cc
  no_response (other m) resp h = cc

  unanswered :
      (x : ExecErr) (reply : Reply Response) (e : OutboundError)
      → ((r : Response) → reply ≡ responded r → ⊥)
      → Told (err x) reply e
  unanswered x reply e none_came = (
    (λ (resp, h). absurd (no_response x resp h), λ (r, came, _). absurd (none_came r came)),
    λ h. (
      λ f. absurd (false≢true (sym (failure_soft x e h) ∙ f)),
      λ (r, came, _). absurd (none_came r came),
    ),
  )

  responded-inj : {r q : Response} → responded r ≡ responded q → q ≡ r
  responded-inj e = cc

  answered : (r : Response) (e : OutboundError) → IsHttp p → Told (ok r) (responded r) e
  answered r e http = (
    (
      λ (resp, h). (r, refl, (IsAccepted-status r resp http).0 h),
      λ (q, same, h). (
        r,
        (IsAccepted-status r r http).1
            (subst (λ n. IsAccepted n) (ap status (responded-inj same)) h),
      ),
    ),
    λ h. (
      λ f. (r, refl, (IsRejection-status r e http h).0 f),
      λ (q, same, g).
          (IsRejection-status r e http h).1
            (subst (λ n. IsRejection n) (ap status (responded-inj same)) g),
    ),
  )

  -- The caller gets a response exactly when one came whose status is from 200 to 399. The error is
  -- fatal exactly when one came whose status is below 200, from 400 to 499 and no 429, or at least
  -- 600; so no failure to get a response is fatal: not a timeout, not a refused connection, and not
  -- an error of another kind, such as a bad certificate or a URL that does not parse.
  pub classify_reply :
      (reply : Reply Response) (e : OutboundError)
      → IsHttp p
      → let result = (classify p l cb key method timeout (execute reply) now later).2 in
        (((resp : Response) × (result ≡ ok resp)) ↔ Responds IsAccepted reply)
        × (result ≡ err e → (is_fatal e ≡ true) ↔ Responds IsRejection reply)
  unfolding execute
  classify_reply (responded r) e http = answered r e http
  classify_reply elapsed e http = unanswered timed_out elapsed e (λ r h. cc)
  classify_reply (failed t c message) e http =
      let (x, same) = execute_failed t c message in
      let reply : Reply Response = failed t c message in
      subst (λ o. Told o reply e) (sym same) (unanswered x reply e (λ r h. cc))
