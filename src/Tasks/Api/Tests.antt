-- ===== src/Tasks/Api/Tests.antt =====
-- A client of the service whose cache refuses to add to sets: the task is there, and not listed.
use rust_basics.Prelude.{refl, false, none, List, [], ◌∷◌, String, ok, str_eq, ◌&&◌, if◌then◌else◌}
use rust_basics.Valkey.Sample.{contents, flaky, flaky-IsServer, flaky-IsAtomic}
use rust_basics.Kafka.{Broker}
use rust_basics.Tasks.Store.Faults.{Shelf, Fits}
use rust_basics.Tasks.Handlers.{AppState, Outside}
use rust_basics.Tasks.Api.{Route, Picked, row, by_axum, Request, serve, AllExplained}
use rust_basics.Tasks.Api.Replies.{serve-AllExplained}
use rust_basics.Tasks.Sample.{titles, empty}

-- A broker that keeps the topics of what it was sent.
abbrev topics : Broker
topics = record { B = List String; send = λ topic key payload b. (topic ∷ b, ok tt) }

abbrev outside : Outside
outside = record {
  server = flaky;
  json = titles;
  broker = topics;
  canonical_reason = λ n. none;
  to_vec = λ event. ok [];
  as_bytes = λ text. [];
}

abbrev state : AppState
state = record { producer = record { default_topic = "tasks.events" }; topic = "" }

-- The heads of requests, and how they are matched here.
abbrev Head : Type 0
Head = String × String

abbrev pick : List Route → Head → Picked
pick [] (method, id) = by_axum 404
pick (r ∷ rs) (method, id) =
    let later = pick rs (method, id) in
    let template = if str_eq id "" then "/tasks" else "/tasks/{id}" in
    if str_eq r.template template && str_eq r.method method then row r id else later

abbrev ask : String → String → Request Head
ask method id = record {
  head = (method, id);
  body = ok (record { title = "milk" });
  uuid = "a";
  now_secs = 7;
}

abbrev requests : List (Request Head)
requests = ask "POST" "" ∷ ask "GET" "a" ∷ ask "GET" "" ∷ ask "PUT" "" ∷ ask "DELETE" "a" ∷ []

abbrev bare : Shelf
bare = record { tasks = λ _. none; index = λ _. false }

serve-AllExplained_example :
    (s' : Shelf) × AllExplained pick requests (serve outside state pick requests empty []).1 bare s'
    × Fits flaky flaky-IsServer titles
        (contents (serve outside state pick requests empty []).0.0)
        s'
serve-AllExplained_example =
    serve-AllExplained outside flaky-IsServer flaky-IsAtomic state pick requests empty [] bare
      λ id. (refl, refl)
