-- ===== src/Kafka/Redelivery/Tests.antt =====
-- Two sessions on one partition: the first is asked for two commits, of which the second is lost.
use mathlib.Core.List.Memᴰ
use rust_basics.Prelude.{
  ℕ, ◌+◌, refl, none, some, List, [], ◌∷◌, ◌++◌, String, Result, ok, err, arith,
}
use rust_basics.Kafka.{Message, Borrowed, Call, handled, committed, run}
use rust_basics.Kafka.Redelivery.{moves, Sessions, none_yet, session, Accepted, restarts-Accepted}

abbrev log : ℕ → Borrowed
log k = record { topic = "tasks.events"; key = none; payload = some []; partition = 0; offset = k }

abbrev count : Message → ℕ → ℕ × Result String (Unit {0})
count m n = (n + 1, ok tt)

abbrev commit : Borrowed → ℕ → ℕ × Result String (Unit {0})
commit r n = (n, ok tt)

abbrev first_calls : List Call
first_calls = handled (log 0) ∷ committed (log 0) ∷ handled (log 1) ∷ committed (log 1) ∷ []

first : Sessions count commit log 1 first_calls
unfolding run
first =
    session none_yet 2 (ok (log 0) ∷ err "broken pipe" ∷ ok (log 1) ∷ []) 0 0 1 refl
      (moves (log 0) (Memᴰ.tail (Memᴰ.head refl)))

both : Sessions count commit log 2 (first_calls ++ handled (log 1) ∷ committed (log 1) ∷ [])
unfolding run
both = session first 1 (ok (log 1) ∷ []) 0 0 2 refl (moves (log 1) (Memᴰ.tail (Memᴰ.head refl)))

restarts-Accepted_example :
    Accepted count commit log (first_calls ++ handled (log 1) ∷ committed (log 1) ∷ []) (log 1)
restarts-Accepted_example = restarts-Accepted count commit log (λ k. refl) both 1 (omega arith)
