-- ===== src/Httpx/Metrics.antt =====
-- crates/httpx/src/metrics.rs: the registry of a server and its two standard metrics. A panic of
-- `expect` is an error here.
use rust_basics.Prelude.{
  ℕ, ◌+◌, ◌^◌, ◌<◌, ◌≤◌, ◌≡◌, Option, none, some, List, [], ◌∷◌, String, Result, ok, err, decimal,
  length, arith, if◌then◌else◌,
}
use rust_basics.Monad.{M, ◌>>=◌, ◌>>◌}
use rust_basics.Prometheus.{Prometheus, counter, histogram, same_labels, IsPrometheus}

module _ (lib : Prometheus) where
  open lib use {
    S, Vector, Registry, F64, new_vector, new_registry, register, register_process, inc, observe,
    gather, from_utf8,
  }

  pub record Metrics : Type 0 where
    pub registry : Registry
    pub req_total : Vector counter
    pub req_duration : Vector histogram

  labels : List String
  labels = "method" ∷ "path" ∷ "status" ∷ []

  -- `Metrics::new`, on Linux: whether the process metrics register makes no difference.
  unfoldable pub new : M S Metrics
  unfolding labels
  new s =
      let (s₁, registry) = new_registry s in
      (do
        req_total ←
            new_vector counter
              (record {
                name = "http_requests_total";
                help = "Total number of HTTP requests handled, by method, route and status.";
              })
              labels
        req_duration ←
            new_vector histogram
              (record {
                name = "http_request_duration_seconds";
                help = "HTTP request latency in seconds, by method, route and status.";
              })
              labels
        register registry req_total
        register registry req_duration
        λ t. (
          register_process registry t,
          ok (record { registry = registry; req_total = req_total; req_duration = req_duration }),
        ))
        s₁

  -- `record`, for one finished request.
  unfoldable pub record_request : Metrics → String → String → ℕ → F64 → S → S
  record_request m method path status elapsed s =
      let status = decimal status in
      observe m.req_duration (method ∷ path ∷ status ∷ []) elapsed
        (inc m.req_total (method ∷ path ∷ status ∷ []) s)

  unfoldable pub render : Metrics → S → Result String String
  render m s = elim (gather m.registry s) [ ok buf ↦ from_utf8 buf | err e ↦ err e ]

  -- A request as the middleware sees it: its method, the template that its route matched, the
  -- status of the answer, and the seconds that it took.
  pub record Seen : Type 0 where
    pub method : String
    pub matched : Option String
    pub status : ℕ
    pub elapsed : F64

  abbrev pub path_of : Option String → String
  path_of none = "unmatched"
  path_of (some template) = template

  -- `track_metrics`, around a handler that has answered.
  unfoldable pub track_metrics : Metrics → Seen → S → S
  track_metrics m q s = record_request m q.method (path_of q.matched) q.status q.elapsed s

  unfoldable pub track_all : Metrics → List Seen → S → S
  track_all m [] s = s
  track_all m (q ∷ qs) s = track_all m qs (track_metrics m q s)

  -- How many requests have the labels.
  abbrev pub matching : List String → List Seen → ℕ
  matching ls [] = 0
  matching ls (q ∷ qs) =
      (if same_labels (q.method ∷ path_of q.matched ∷ decimal q.status ∷ []) ls then 1 else 0)
      + matching ls qs

  matching_once : (q : Seen) (ls : List String) → matching ls (q ∷ []) ≤ 1
  matching_once q ls = ground arith

  module _ (law : IsPrometheus lib) where
    open law use {
      total, observations, total-inc, total-observe, observations-observe, observations-inc,
    }

    track_counts :
        (m : Metrics) (q : Seen) (ls : List String) (s : S)
        → total m.req_total ls s < 2 ^ 53
        → observations m.req_duration ls s < 2 ^ 53
        → (total m.req_total ls (track_metrics m q s)
            ≡ total m.req_total ls s + matching ls (q ∷ []))
          × (observations m.req_duration ls (track_metrics m q s)
              ≡ observations m.req_duration ls s + matching ls (q ∷ []))
    unfolding track_metrics record_request
    track_counts m q ls s few short =
        let at = q.method ∷ path_of q.matched ∷ decimal q.status ∷ [] in
        let a = total-inc m.req_total at ls s few in
        let b = total-observe m.req_duration m.req_total at ls q.elapsed (inc m.req_total at s) in
        let c = observations-inc m.req_total m.req_duration at ls s in
        let d =
          observations-observe m.req_duration at ls q.elapsed (inc m.req_total at s)
            (omega (arith, c, short)) in
        (ground arith, ground arith)

    -- However many requests the middleware has seen, the counter and the histogram of a method,
    -- a route and a status have each counted those that match, and no others. What was counted
    -- before and the requests must together be fewer than 2 ^ 53.
    pub track_all-matching :
        (m : Metrics) (qs : List Seen) (ls : List String) (s : S)
        → total m.req_total ls s + length qs < 2 ^ 53
        → observations m.req_duration ls s + length qs < 2 ^ 53
        → (total m.req_total ls (track_all m qs s) ≡ total m.req_total ls s + matching ls qs)
          × (observations m.req_duration ls (track_all m qs s)
              ≡ observations m.req_duration ls s + matching ls qs)
    unfolding track_all
    track_all-matching m [] ls s few short = (omega arith, omega arith)
    track_all-matching m (q ∷ qs) ls s few short =
        let (counted, timed) = track_counts m q ls s (omega (arith, few)) (omega (arith, short)) in
        let once = matching_once q ls in
        let (rest, times) =
          track_all-matching m qs ls (track_metrics m q s) (omega (arith, few, counted, once))
            (omega (arith, short, timed, once)) in
        (omega (arith, counted, rest), omega (arith, timed, times))
