-- ===== src/Httpx/Tests.antt =====
-- The server library's theorems at concrete runs. A check is what it answers.
use rust_basics.Prelude.{
  ℕ, ◌≡◌, refl, str_ne, true, false, Option, none, some, List, [], ◌∷◌, String, Result, ok, err,
  lookup, ◌+◌, arith,
}
use rust_basics.Httpx.Health.{Health}
use rust_basics.Httpx.Metrics.{Metrics, Seen, track_all, matching, track_all-matching}
use rust_basics.Prometheus.Sample.{numbers, numbers-IsPrometheus, none_counted}
use rust_basics.Httpx.Problem.{Problem, text, number, to_json, lookup-to_json}
use rust_basics.Httpx.Config.{Source, mapping, overlay, env_value, over, lookup-overlay}

abbrev answers : Result String (Unit {0}) → Result String (Unit {0})
answers r = r

abbrev two_checks : Health (Result String (Unit {0}))
two_checks = record { ready = true; checks = ("db", ok tt) ∷ ("mq", err "down") ∷ [] }

abbrev no_reason : ℕ → Option String
no_reason n = none

abbrev lost : Problem
lost = record {
  status = 404;
  type_uri = none;
  title = some "Lost";
  detail = some "gone";
  instance_ = none;
  extensions = ("code", text "lost") ∷ [];
}

lookup-to_json_example :
    let json = to_json no_reason lost in
    (lookup "type" json ≡ some (text "about:blank"))
    × (lookup "title" json ≡ some (text "Lost"))
    × (lookup "status" json ≡ some (number 404))
    × (lookup "detail" json ≡ some (text "gone"))
    × (lookup "instance" json ≡ lookup "instance" lost.extensions)
    × (lookup "code" json ≡ lookup "code" lost.extensions)
lookup-to_json_example =
    lookup-to_json no_reason lost "code" (str_ne "code" "type" refl) (str_ne "code" "title" refl)
      (str_ne "code" "status" refl) (str_ne "code" "detail" refl) (str_ne "code" "instance" refl)

-- Values are texts, no file exists, and the decoder takes the mapping as it is.
abbrev texts : Source (List (String × String))
texts = record {
  V = String;
  exists_ = λ path. false;
  read_to_string = λ path. ok "";
  parse = λ s. ok (mapping []);
  scalar = λ s. none;
  plain = λ s. s;
  to_lowercase = λ s. s;
  from_value = λ m. ok m;
}

lookup-overlay_example :
    lookup "addr" (overlay texts "X_" (("X_addr", "b") ∷ []) (("addr", "a") ∷ []))
    ≡ over texts
        (env_value texts "X_" (("X_addr", "b") ∷ []) "addr")
        (lookup "addr" (("addr", "a") ∷ []))
lookup-overlay_example =
    lookup-overlay texts "X_" (("X_addr", "b") ∷ []) (("addr", "a") ∷ []) "addr"

abbrev standard : Metrics numbers
standard = record {
  registry = tt;
  req_total = "http_requests_total";
  req_duration = "http_request_duration_seconds";
}

abbrev two_seen : List (Seen numbers)
two_seen =
    record { method = "GET"; matched = some "/ping"; status = 200; elapsed = 1 }
    ∷ record { method = "GET"; matched = none; status = 404; elapsed = 1 }
    ∷ []

track_all-matching_example :
    let ls : List String = "GET" ∷ "/ping" ∷ "200" ∷ [] in
    let after = track_all numbers standard two_seen none_counted in
    (after.totals "http_requests_total" ls ≡ 0 + matching numbers ls two_seen)
    × (after.counts "http_request_duration_seconds" ls ≡ 0 + matching numbers ls two_seen)
track_all-matching_example =
    track_all-matching numbers numbers-IsPrometheus standard two_seen ("GET" ∷ "/ping" ∷ "200" ∷ [])
      none_counted (omega arith) (omega arith)
