-- ===== src/Ping/Access.antt =====
-- Who gets through to the ping routes.
use rust_basics.Prelude.{
  ℕ, ◌≡◌, ◌∙◌, sym, refl, ap, ◌↔◌, ◌⊎◌, inl, inr, false, false≢true, Option, none, some, String,
  arith, Option-cases, Bool-cases,
}
use mathlib.Core.Option.{none-ne-some}
use rust_basics.Secrets.Compare.{constant_time_eq, constant_time_eq_iff}
use rust_basics.RateLimit.{check}
use rust_basics.Ping.{
  Options, Reply, rate_limited, status, Outside, provided, secure, client_key, Request, route,
  limiter, rate_limit, serve,
}

some-inj : {A : Type 0} {x y : A} → ◌≡◌ {A = Option A} (some x) (some y) → x ≡ y
some-inj e = cc

module _ (out : Outside) where
  open out use {V, as_bytes, governor}
  open governor use {L, check_key}

  -- The gate answers 200 exactly for a bearer token with the bytes of the key, and 401 otherwise.
  pub secure-status :
      (key : String) (headers : String → Option V)
      → ((status (secure out key headers) ≡ 200) ↔ (
          (token : String) × (provided out headers ≡ some token) × (as_bytes token ≡ as_bytes key)))
        × ((status (secure out key headers) ≡ 200) ⊎ (status (secure out key headers) ≡ 401))
  unfolding secure status
  secure-status key headers = elim (Option-cases (provided out headers)) [
    | inl e ↦
        rw (e, secure) ((λ h. absurd (omega arith), λ h. absurd (none-ne-some h.0 h.1)), inr refl)
    | inr (token, e) ↦
        let same = constant_time_eq_iff (as_bytes token) (as_bytes key) in
        elim (Bool-cases (constant_time_eq (as_bytes token) (as_bytes key))) [
          | inl yes_ ↦ rw (e, yes_, secure) ((λ h. (token, refl, same.0 yes_), λ h. refl), inl refl)
          | inr no_ ↦
              rw (e, no_, secure)
                (
                  (
                    λ h. absurd (omega arith),
                    λ h. absurd (false≢true (sym no_ ∙ same.1 (ap as_bytes (some-inj h.1) ∙ h.2))),
                  ),
                  inr refl,
                )
        ]
  ]

  limited :
      (l : L) (req : Request out) (now : ℕ) (reply : Reply)
      → (check_key l (client_key out req.headers) now).1 ≡ false
      → (rate_limit out l req now reply).1 ≡ rate_limited
  unfolding rate_limit check
  limited l req now reply refused = rw (refused, rate_limit) refl

  no_limiter : (opts : Options) → opts.rate_limit_rps ≡ 0 → limiter out opts ≡ none
  unfolding limiter
  no_limiter opts off = ground arith

  -- While the limiter refuses the client, every path that has a route is answered with 429,
  -- `/secure` too, whatever the request holds besides; a path without a route is answered with 404.
  serve-limited :
      (opts : Options) (pkg : String) (sha : Option String) (l : L) (req : Request out) (now : ℕ)
      → (check_key l (client_key out req.headers) now).1 ≡ false
      → ((route out opts pkg sha req ≡ none)
          × (status (serve out opts pkg sha (some l) req now).1 ≡ 404))
        ⊎ ((reply : Reply) × (route out opts pkg sha req ≡ some reply)
            × (status (serve out opts pkg sha (some l) req now).1 ≡ 429))
  unfolding serve status
  serve-limited opts pkg sha l req now refused = elim (Option-cases (route out opts pkg sha req)) [
    | inl e ↦ rw (e, serve) (inl (refl, refl))
    | inr (reply, e) ↦
        rw (e, serve) (inr (reply, refl, ap status (limited l req now reply refused)))
  ]

  -- Without a limit, the router answers each request as its route does and keeps no state.
  pub serve-unlimited :
      (opts : Options) (pkg : String) (sha : Option String) (req : Request out) (now : ℕ)
      (reply : Reply)
      → opts.rate_limit_rps ≡ 0
      → route out opts pkg sha req ≡ some reply
      → serve out opts pkg sha (limiter out opts) req now ≡ (none, reply)
  unfolding serve
  serve-unlimited opts pkg sha req now reply off e = rw (e, no_limiter opts off, serve) refl
