-- ===== src/Ping/Tests.antt =====
-- The ping routes at concrete requests: a header's value is its text.
use rust_basics.Prelude.{
  ℕ, ◌-◌, ◌≡◌, ◌≢◌, refl, Option, none, some, List, [], ◌∷◌, String, str_eq, ltb, ok, if◌then◌else◌,
}
use rust_basics.RateLimit.{Governor}
use rust_basics.Ping.{
  Options, status, Outside, provided, secure, Request, route, serve, limiter, rate_limit,
}
use rust_basics.Ping.Service.{parse_u32, options as env_options, options-secure}
use rust_basics.Secrets.Compare.{constant_time_eq}
use rust_basics.Httpx.Config.{strip_prefix}

-- A limiter is the number of its cells.
abbrev cells : Governor
cells = record {
  Quota = ℕ;
  L = ℕ;
  quota_per_second = λ n. n;
  quota_per_minute = λ n. n;
  keyed = λ q. q;
  check_key = λ l key now. (l - 1, ltb 0 l);
  retain = λ l now. l;
  until_key_ready = λ l key now. (l, now);
}

abbrev length_of : String → List ℕ
length_of String.[] = []
length_of (String.◌∷◌ c s) = 1 ∷ length_of s

abbrev outside : Outside
outside = record { V = String; to_str = λ v. some v; as_bytes = length_of; governor = cells }

abbrev bearer : String → Option String
bearer name = if str_eq name "authorization" then some "Bearer k" else none

abbrev options : Options
options = record { rate_limit_rps = 0; api_key = some "k" }

abbrev request : Request outside
request = record { path = "/secure"; query = ok none; headers = bearer }

parse_u32_tests :
    (parse_u32 "12" ≡ some 12)
    × (parse_u32 "+7" ≡ some 7)
    × (parse_u32 "4294967295" ≡ some 4294967295)
    × (parse_u32 "4294967296" ≡ none)
    × (parse_u32 "+" ≡ none)
    × (parse_u32 "1x" ≡ none)
unfolding parse_u32
parse_u32_tests = (refl, refl, refl, refl, refl, refl)

options-secure_example :
    (key token : String) × (◌≡◌ {A = Option String} (some "k") (some key))
    × (key ≢ "")
    × (provided outside bearer ≡ some token)
    × (length_of token ≡ length_of key)
unfolding parse_u32 env_options limiter serve rate_limit route secure provided strip_prefix
    constant_time_eq status
options-secure_example =
    options-secure outside (some "many") (some "k") "1" none request 7 refl refl
