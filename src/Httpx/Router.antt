-- ===== src/Httpx/Router.antt =====
-- crates/httpx/src/server.rs: `Server::router`, the built-in handlers behind it, and the metrics
-- middleware around it. `axum` is a parameter, with what it documents of the routes that are used
-- here for GET requests: one of another method is answered by 405 on such a route, which is left out.
-- Each request carries the seconds that it takes, and extensions only hand the shared state on.
use mathlib.Core.Option.{none-ne-some}
use rust_basics.Prelude.{
  ℕ, ◌≡◌, ◌∙◌, sym, ◌⊎◌, inl, inr, Bool, true, Option, none, some, String, Result, ok, err,
  if◌then◌else◌, if_true, if_false, Bool-cases, Option-cases,
}
use rust_basics.Prometheus.{Prometheus}
use rust_basics.Httpx.Health.{Health}
use rust_basics.Httpx.Server.{ReadyResponse, ready}
use rust_basics.Httpx.Metrics.{Metrics, Seen, render, track_metrics}

-- What the server answers: the built-in handlers' answers, a service's, or no route's.
pub data Reply (R : Type 0) : Type 0 where
  alive : Reply R
  readiness : ReadyResponse → Reply R
  metrics : Result String String → Reply R
  replied : R → Reply R

-- A handler changes the state that it shares with others and answers.
abbrev pub Handler : Type 0 → Type 0 → Type 0 → Type 0
Handler Req S A = Req → S → S × A

-- `route` is with a GET handler; `route_layer` wraps a handler that is told the matched template.
pub record Axum (Req S A : Type 0) : Type 1 where
  pub Router : Type 0
  pub route : String → Handler Req S A → Router → Router
  pub route_layer : (Option String → Handler Req S A → Handler Req S A) → Router → Router
  pub call : Router → Handler Req S A
  pub matched_path : Router → Req → Option String
  pub fits : String → Req → Bool
  pub is_get : Req → Bool

-- A GET request that fits the new route goes to its handler, any other one to the routes before. A
-- `route_layer` runs only around a matched route, and changes nothing of the matching.
pub record IsAxum {Req S A : Type 0} (lib : Axum Req S A) : Type 0 where
  pub call-route :
      (t : String) (h : Handler Req S A) (r : Axum.Router lib) (q : Req) (s : S)
      → Axum.is_get lib q ≡ true
      → Axum.call lib (Axum.route lib t h r) q s
        ≡ (if Axum.fits lib t q then h q s else Axum.call lib r q s)
  pub matched_path-route :
      (t : String) (h : Handler Req S A) (r : Axum.Router lib) (q : Req)
      → Axum.matched_path lib (Axum.route lib t h r) q
        ≡ (if Axum.fits lib t q then some t else Axum.matched_path lib r q)
  pub call_matched :
      (mw : Option String → Handler Req S A → Handler Req S A) (r : Axum.Router lib) (q : Req)
      (s : S) (t : String)
      → Axum.matched_path lib r q ≡ some t
      → Axum.call lib (Axum.route_layer lib mw r) q s ≡ mw (some t) (Axum.call lib r) q s
  pub call_unmatched :
      (mw : Option String → Handler Req S A → Handler Req S A) (r : Axum.Router lib) (q : Req)
      (s : S)
      → Axum.matched_path lib r q ≡ none
      → Axum.call lib (Axum.route_layer lib mw r) q s ≡ Axum.call lib r q s

-- What a request and an answer show to the middleware.
pub record Exchange (Req R F : Type 0) : Type 0 where
  pub method : Req → String
  pub elapsed : Req → F
  pub status : R → ℕ

module _ {Req W R C : Type 0} (lib : Prometheus) (m : Metrics lib)
    (axum : Axum Req (W × Prometheus.S lib) (Reply R)) (shown : Exchange Req R (Prometheus.F64 lib))
    (probe : C → Result String (Unit {0})) where
  open lib use {S}
  open axum use {Router, route, route_layer, call, matched_path, fits, is_get}
  open shown use {method, elapsed}

  -- The status of an answer; `render` that panics gives none, which stands as 500 here.
  abbrev status_of : Reply R → ℕ
  status_of alive = 200
  status_of (readiness r) = r.status
  status_of (metrics (ok text)) = 200
  status_of (metrics (err e)) = 500
  status_of (replied r) = Exchange.status shown r

  live : Handler Req (W × S) (Reply R)
  live q s = (s, alive)

  ready_handler : Health C → Handler Req (W × S) (Reply R)
  ready_handler health q s = (s, readiness (ready probe health))

  metrics_handler : Handler Req (W × S) (Reply R)
  metrics_handler q s = (s, metrics (render lib m s.1))

  abbrev pub seen : Option String → Req → Reply R → Seen lib
  seen matched q a = record {
    method = method q;
    matched = matched;
    status = status_of a;
    elapsed = elapsed q;
  }

  -- `track_metrics` around the next handler.
  middleware : Option String → Handler Req (W × S) (Reply R) → Handler Req (W × S) (Reply R)
  middleware matched next q s =
      let ((w, store), a) = next q s in ((w, track_metrics lib m (seen matched q a) store), a)

  -- The routes before the middleware.
  unfoldable pub inner : Router → Health C → Router
  unfolding live ready_handler metrics_handler
  inner routes health =
      route "/metrics" metrics_handler
        (route "/readyz" (ready_handler health) (route "/healthz" live routes))

  -- `router`
  unfoldable pub router : Router → Health C → Router
  unfolding inner middleware
  router routes health = route_layer middleware (inner routes health)

  module _ (law : IsAxum axum) (routes : Router) (health : Health C) (q : Req) (s : W × S)
      (get : is_get q ≡ true) where
    open law use {call-route, matched_path-route, call_matched, call_unmatched}

    -- A route that does not take the request leaves it to the routes before.
    passed_on :
        (t : String) (h : Handler Req (W × S) (Reply R)) (r : Router)
        → matched_path (route t h r) q ≡ none
        → (matched_path r q ≡ none) × (call (route t h r) q s ≡ call r q s)
    passed_on t h r e = elim (Bool-cases (fits t q)) [
      | inl hit ↦ absurd (none-ne-some t (sym e ∙ matched_path-route t h r q ∙ if_true _ hit))
      | inr miss ↦ (
        sym (if_false _ miss) ∙ sym (matched_path-route t h r q) ∙ e,
        call-route t h r q s get ∙ if_false _ miss,
      )
    ]

    inner_unmatched :
        matched_path (inner routes health) q ≡ none
        → call (inner routes health) q s ≡ call routes q s
    unfolding inner
    inner_unmatched e =
        let (e₁, past₁) = passed_on "/metrics" _ _ e in
        let (e₂, past₂) = passed_on "/readyz" _ _ e₁ in
        let (_, past₃) = passed_on "/healthz" _ _ e₂ in past₁ ∙ past₂ ∙ past₃

    -- A GET request that no route matches is answered as the service's routes answer it, and is not
    -- counted. Any other one gets the answer of its handler, whatever the middleware does, and is
    -- counted once, after its handler, under the template of its route.
    router-counts :
        let ((w, store), answer) = call (inner routes health) q s in
        ((matched_path (inner routes health) q ≡ none)
          × (call (router routes health) q s ≡ call routes q s))
        ⊎ ((t : String) × (matched_path (inner routes health) q ≡ some t)
            × (call (router routes health) q s
                ≡ ((w, track_metrics lib m (seen (some t) q answer) store), answer)))
    unfolding router
    router-counts = elim (Option-cases (matched_path (inner routes health) q)) [
      | inl e ↦ inl (e, call_unmatched _ _ q s e ∙ inner_unmatched e)
      | inr (t, e) ↦ inr (t, e, call_matched _ _ q s t e)
    ]
