-- ===== src/Pipeline/Tests.antt =====
-- The way of an event at a concrete run: one task is created, and its record received twice.
use rust_basics.Prelude.{
  ℕ, ◌+◌, refl, none, some, List, [], ◌∷◌, String, str_eq, ◌==◌, Bool, true, if◌then◌else◌, false,
  Result, ok, err,
}
use rust_basics.Valkey as Valkey
use rust_basics.Valkey.Sample.{memory}
use rust_basics.Kafka.{Borrowed, Broker}
use rust_basics.Tasks.Sample.{titles}
use rust_basics.Tasks.Store as Store
use rust_basics.Tasks.Handlers.{AppState, Outside}
use rust_basics.Consumer as Consumer
use rust_basics.Consumer.{Counters}
use rust_basics.Httpx.Problem.{Value, text, number, other}
use rust_basics.Pipeline.Wire.{Object, SerdeJson, to_object}
use rust_basics.Pipeline.{IsBroker, Creation}

-- A broker that keeps every payload once.
abbrev pile : Broker
pile = record { B = List (List ℕ); send = λ topic key payload b. (payload ∷ b, ok tt) }

abbrev pile-IsBroker : IsBroker pile
pile-IsBroker = record { payloads = λ b. b; payloads-send = λ topic key payload b. (1, refl) }

-- Only the event of one task is written, and every payload is read as that event.
abbrev milk : Object
milk = to_object (record { id = "a"; title = "milk"; created_at = 7 })

same_value : Value → Value → Bool
same_value (text a) (text b) = str_eq a b
same_value (number m) (number n) = m == n
same_value (other a) (other b) = str_eq a b
same_value _ _ = false

same : Object → Object → Bool
unfolding same_value
same [] [] = true
same ((k, v) ∷ o) ((l, w) ∷ o') =
    let rest = same o o' in if str_eq k l then (if same_value v w then rest else false) else false
same _ _ = false

abbrev json : SerdeJson
json = record {
  to_vec = λ o. if same milk o then ok (7 ∷ []) else err "unknown";
  from_slice = λ payload. ok milk;
}

abbrev outside : Outside
outside = record {
  server = memory;
  json = titles;
  broker = pile;
  canonical_reason = λ n. none;
  to_vec = λ e. json.to_vec (to_object e);
  as_bytes = λ s. [];
}

abbrev app : AppState
app = record { producer = record { default_topic = "tasks.events" }; topic = "" }

abbrev wanted : List Creation
wanted = record { uuid = "a"; now_secs = 7; body = ok (record { title = "milk" }) } ∷ []

abbrev parcel : Borrowed
parcel = record {
  topic = "tasks.events";
  key = none;
  payload = some (7 ∷ []);
  partition = 0;
  offset = 0;
}

abbrev acknowledge : Borrowed → ℕ → ℕ × Result String (Unit {0})
acknowledge r n = (n + 1, ok tt)

abbrev zeros : Counters
zeros = record { consumed = 0; skipped = 0 }
