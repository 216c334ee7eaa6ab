-- ===== src/Ping/Service.antt =====
-- crates/ping/src/main.rs: the service that comes up, whose options are from the environment, and
-- `u32::from_str` of Rust's standard library. Events of the log are left out.
use Prim.Native.Char.{code}
use mathlib.Core.Option.{none-ne-some}
use rust_basics.Prelude.{
  ℕ, ◌+◌, ◌-◌, ◌*◌, ◌^◌, ◌≡◌, ◌≢◌, ◌∙◌, refl, sym, ap, ◌&&◌, Option, none, some, String, str_eq,
  str_ne, if◌then◌else◌, leb, ltb, ◌==◌, if_true, if_false, arith, Option-cases, Bool-cases, Result,
  ok, Result-cases, ◌⊎◌, inl, inr,
}
use rust_basics.Monad.{M, lift, ◌>>=◌}
use rust_basics.Tracing.{Tracing}
use rust_basics.Httpx.Config as Http
use rust_basics.Httpx.Logging.{init_tracing}
use rust_basics.RateLimit.{check}
use rust_basics.Ping.{
  Options, Reply, status, Outside, client_key, provided, secure, Request, route, limiter,
  rate_limit, serve,
}
use rust_basics.Ping.Access.{secure-status}

-- The digits that are left, behind the number read so far.
parse_digits : ℕ → String → Option ℕ
parse_digits n String.[] = some n
parse_digits n (String.◌∷◌ c s) =
    let next = n * 10 + (code c - 48) in
    let rest = parse_digits next s in
    if leb 48 (code c) && leb (code c) 57 && ltb next (2 ^ 32) then rest else none

-- `v.parse::<u32>()`: a sign `+` or none, and at least one digit.
unfoldable pub parse_u32 : String → Option ℕ
unfolding parse_digits
parse_u32 String.[] = none
parse_u32 (String.◌∷◌ c s) =
    if code c == 43
    then (if str_eq s "" then none else parse_digits 0 s)
    else parse_digits 0 (String.◌∷◌ c s)

unwrap_or_zero : Option ℕ → ℕ
unwrap_or_zero none = 0
unwrap_or_zero (some n) = n

-- The options of `main`, given `PING_RATE_LIMIT_RPS` and `PING_API_KEY`.
unfoldable pub options : Option String → Option String → Options
unfolding unwrap_or_zero
options rps key = record {
  rate_limit_rps = unwrap_or_zero (elim rps [ none ↦ none | some v ↦ parse_u32 v ]);
  api_key = elim key [ none ↦ none | some k ↦ if str_eq k "" then none else some k ];
}

-- The server of `main` before it runs, and the options of its routes.
pub record Service : Type 0 where
  pub config : Http.Config
  pub opts : Options

-- `main` up to the server's run, from what `Config::from_env` gives.
unfoldable pub boot :
    (tracing : Tracing)
    → Result String Http.Config
    → Option String
    → Option String
    → M (Tracing.G tracing) Service
boot tracing loaded rps key = do
  cfg ← lift loaded
  λ g. (
    init_tracing tracing cfg.log_level cfg.log_format g,
    ok (record { config = cfg; opts = options rps key }),
  )

some-inj : {A : Type 0} {x y : A} → some x ≡ some y → x ≡ y
some-inj e = cc

-- The key of the options is that of the environment, unless it is empty.
key_cases :
    (rps key : Option String)
    → ((options rps key).api_key ≡ none)
      ⊎ ((k : String) × (key ≡ some k) × (k ≢ "") × ((options rps key).api_key ≡ some k))
unfolding options
key_cases rps none = inl refl
key_cases rps (some k) = elim (Bool-cases (str_eq k "")) [
  | inl e ↦ inl (if_true _ e)
  | inr e ↦ inr (k, refl, str_ne k "" e, if_false _ e)
]

module _ (out : Outside) (opts : Options) (pkg : String) (sha : Option String) where
  secure_route :
      (req : Request out)
      → req.path ≡ "/secure"
      → route out opts pkg sha req
        ≡ elim opts.api_key [ none ↦ none | some k ↦ some (secure out k req.headers) ]
  unfolding route
  secure_route req at = rw at refl

  passed :
      (limits : (Outside.governor out).L) (req : Request out) (now : ℕ) (reply : Reply)
      → status (rate_limit out limits req now reply).1 ≡ 200
      → status reply ≡ 200
  unfolding rate_limit status
  passed limits req now reply h =
      elim (Result-cases (check (Outside.governor out) limits (client_key out req.headers) now).1) [
        | inl (_, e) ↦ rw (e, rate_limit) at h
        | inr (_, e) ↦ absurd (omega (arith, (rw (e, rate_limit) at h)))
      ]

  -- An answer of 200 is the route's.
  served :
      (l : Option (Outside.governor out).L) (req : Request out) (now : ℕ)
      → status (serve out opts pkg sha l req now).1 ≡ 200
      → (reply : Reply) × (route out opts pkg sha req ≡ some reply) × (status reply ≡ 200)
  unfolding serve status
  served none req now h = elim (Option-cases (route out opts pkg sha req)) [
    | inl e ↦ absurd (omega (arith, (rw (e, serve) at h)))
    | inr (reply, e) ↦ (reply, e, rw (e, serve) at h)
  ]
  served (some limits) req now h = elim (Option-cases (route out opts pkg sha req)) [
    | inl e ↦ absurd (omega (arith, (rw (e, serve) at h)))
    | inr (reply, e) ↦ (reply, e, passed limits req now reply (rw (e, serve) at h))
  ]

module _ (out : Outside) (rps key : Option String) (pkg : String) (sha : Option String) where
  open out use {as_bytes}

  -- What is behind the path, for a key.
  abbrev behind : Request out → Option String → Option Reply
  behind req none = none
  behind req (some k) = some (secure out k req.headers)

  -- What a request to the service is answered.
  abbrev pub reply_of : Request out → ℕ → Reply
  reply_of req now = (serve out (options rps key) pkg sha (limiter out (options rps key)) req now).1

  -- Only a bearer of the key gets 200 from `/secure`, and only if the environment holds a key that is
  -- not empty: whatever the limit is and whatever else the request holds.
  pub options-secure :
      (req : Request out) (now : ℕ)
      → req.path ≡ "/secure"
      → status (reply_of req now) ≡ 200
      → (k token : String) × (key ≡ some k)
        × (k ≢ "")
        × (provided out req.headers ≡ some token)
        × (as_bytes token ≡ as_bytes k)
  options-secure req now at h =
      let (reply, routed, fine) = served out (options rps key) pkg sha _ req now h in
      let path = secure_route out (options rps key) pkg sha req at in
      elim (key_cases rps key) [
        | inl e ↦ absurd (none-ne-some reply (sym (path ∙ ap (behind req) e) ∙ routed))
        | inr (k, given, filled, e) ↦
            let same : some (secure out k req.headers) ≡ some reply =
              sym (path ∙ ap (behind req) e) ∙ routed in
            let (token, sent, equal) =
              (secure-status out k req.headers).0.0 (ap status (some-inj same) ∙ fine) in
            (k, token, given, filled, sent, equal)
      ]
