-- ===== src/Ping.antt =====
-- crates/ping/src/lib.rs: the ping routes, their bearer gate and their rate limit. Requests are GET
-- requests; the routing table is written out, a path without a route is answered with 404, and a
-- `route_layer` is run for the paths that have a route, and for no other, as axum documents it.
-- Header values and the bytes of a text come from outside.
pub mod Access
pub mod Service
mod Tests
use Prim.Native.Char.{code}
use rust_basics.Prelude.{
  ℕ, ◌≡◌, Bool, true, false, ◌&&◌, ◌||◌, Option, none, some, List, String, str_eq, Result, ok, err,
  ltb, ◌==◌, if◌then◌else◌,
}
use rust_basics.Secrets.Compare.{constant_time_eq}
use rust_basics.Secrets.Seal.{is_whitespace}
use rust_basics.Httpx.Config.{strip_prefix}
use rust_basics.RateLimit.{Governor, per_second, check}

pub record Options : Type 0 where
  pub rate_limit_rps : ℕ
  pub api_key : Option String

pub data Reply : Type 0 where
  pong_response : String → Option String → Reply
  version_response : String → String → String → Reply
  authorized unauthorized rate_limited no_route bad_request : Reply

unfoldable pub status : Reply → ℕ
status (pong_response _ _) = 200
status (version_response _ _ _) = 200
status authorized = 200
status unauthorized = 401
status rate_limited = 429
status no_route = 404
status bad_request = 400

-- `q.msg.filter(|s| !s.is_empty())`
unfoldable pub pong : Option String → Reply
pong none = pong_response "pong" none
pong (some s) = pong_response "pong" (if str_eq s "" then none else some s)

-- The version and the build come from the compiler's environment.
unfoldable pub version : String → Option String → Reply
version pkg none = version_response "ping" pkg "unknown"
version pkg (some sha) = version_response "ping" pkg sha

-- The first piece of `split(',')`.
unfoldable pub first_piece : String → String
first_piece String.[] = ""
first_piece (String.◌∷◌ c s) =
    let rest = first_piece s in if code c == 44 then "" else String.◌∷◌ c rest

trim_left : String → String
trim_left String.[] = ""
trim_left (String.◌∷◌ c s) =
    let rest = trim_left s in if is_whitespace (code c) then rest else String.◌∷◌ c s

trim_right : String → String
trim_right String.[] = ""
trim_right (String.◌∷◌ c s) =
    let rest = trim_right s in
    if is_whitespace (code c) && str_eq rest "" then "" else String.◌∷◌ c rest

-- What the handlers take from outside. `to_str` reads a header's value, if it is one line of text.
pub record Outside : Type 1 where
  pub V : Type 0
  pub to_str : V → Option String
  pub as_bytes : String → List ℕ
  pub governor : Governor

module _ (out : Outside) where
  open out use {V, to_str, as_bytes, governor}
  open governor use {L}

  -- A header that is there and is text.
  header : (String → Option V) → String → Option String
  header headers name = elim (headers name) [ none ↦ none | some v ↦ to_str v ]

  unfoldable pub provided : (String → Option V) → Option String
  unfolding header
  provided headers = elim (header headers "authorization") [
    | none ↦ none
    | some s ↦ strip_prefix "Bearer " s
  ]

  unfoldable pub secure : String → (String → Option V) → Reply
  secure key headers = elim (provided headers) [
    | some token ↦
        if constant_time_eq (as_bytes token) (as_bytes key) then authorized else unauthorized
    | none ↦ unauthorized
  ]

  unfoldable pub client_key : (String → Option V) → String
  unfolding header trim_left trim_right
  client_key headers = elim (header headers "x-forwarded-for") [
    | some s ↦ trim_right (trim_left (first_piece s))
    | none ↦ elim (header headers "x-real-ip") [ some s ↦ s | none ↦ "global" ]
  ]

  -- `query` is what the extractor `Query` makes of the query string: the `msg`, or a rejection.
  pub record Request : Type 0 where
    pub path : String
    pub query : Result String (Option String)
    pub headers : String → Option V

  -- The handler behind a path, if it has a route.
  unfoldable pub route : Options → String → Option String → Request → Option Reply
  route opts pkg sha req =
      if str_eq req.path "/ping"
      then some (elim req.query [ ok msg ↦ pong msg | err _ ↦ bad_request ])
      else if str_eq req.path "/version"
      then some (version pkg sha)
      else if str_eq req.path "/secure"
      then elim opts.api_key [ none ↦ none | some key ↦ some (secure key req.headers) ]
      else none

  -- The limiter that `routes` builds.
  unfoldable pub limiter : Options → Option L
  limiter opts =
      if ltb 0 opts.rate_limit_rps then some (per_second governor opts.rate_limit_rps) else none

  -- The middleware `rate_limit` around a handler's reply.
  unfoldable pub rate_limit : L → Request → ℕ → Reply → L × Reply
  rate_limit l req now next =
      let (l', checked) = check governor l (client_key req.headers) now in
      (l', elim checked [ ok _ ↦ next | err _ ↦ rate_limited ])

  -- A request to the router that `routes` builds: a `route_layer` guards what has a route.
  unfoldable pub serve :
      Options → String → Option String → Option L → Request → ℕ → Option L × Reply
  serve opts pkg sha l req now = elim (route opts pkg sha req) [
    | none ↦ (l, no_route)
    | some reply ↦ elim l [
      | none ↦ (none, reply)
      | some limits ↦ let (l', answer) = rate_limit limits req now reply in (some l', answer)
    ]
  ]
