-- ===== src/Consumer/Tests.antt =====
-- The consumers' theorems at a concrete run: the second commit is refused.
use rust_basics.Prelude.{ℕ, zero, suc, Option, none, some, List, [], ◌∷◌, String, Result, ok, err}
use rust_basics.Kafka as Kafka
use rust_basics.Kafka.{Borrowed}
use rust_basics.Kafka.Commits.{received, Stands, run-Stands}
use rust_basics.Consumer.{TaskCreatedEvent, Counters, handle, run}
use rust_basics.Consumer.Counts.{Counted, run-Counted}

abbrev from_slice : List ℕ → Result String TaskCreatedEvent
from_slice [] = err "empty"
from_slice (_ ∷ _) = ok (record { id = "a"; title = "" })

abbrev commit_message : Borrowed → ℕ → ℕ × Result String (Unit {0})
commit_message r zero = (1, ok tt)
commit_message r (suc n) = (suc n, err "refused")

abbrev record_of : Option (List ℕ) → Borrowed
record_of payload = record { topic = "t"; key = none; payload = payload; partition = 0; offset = 0 }

abbrev polled : List (Result String Borrowed)
polled = ok (record_of none) ∷ err "recv" ∷ ok (record_of (some (1 ∷ []))) ∷ []

abbrev zeros : Counters
zeros = record { consumed = 0; skipped = 0 }

run-Stands_example :
    Stands
      (handle from_slice)
      commit_message
      (received polled)
      (Kafka.run (handle from_slice) commit_message polled zeros 0)
run-Stands_example = run-Stands (handle from_slice) commit_message polled zeros 0

run-Counted_example :
    Counted from_slice commit_message zeros (run from_slice commit_message polled zeros 0)
run-Counted_example = run-Counted from_slice commit_message polled zeros 0
