-- ===== src/Kafka/Steps.antt =====
-- What one record does to a run, by the answers of its handler and of its commit.
use rust_basics.Prelude.{◌≡◌, refl, some, List, [], ◌∷◌, String, Result, ok, err}
use rust_basics.Kafka.{Message, Borrowed, message_of, handled, committed, before, run}

module _ {H B : Type 0} (handler : Message → H → H × Result String (Unit {0}))
    (commit_message : Borrowed → B → B × Result String (Unit {0})) (r : Borrowed)
    (records : List (Result String Borrowed)) (h : H) (b : B) where
  pub run-refused :
      (e : String)
      → (handler (message_of r) h).1 ≡ err e
      → run handler commit_message (ok r ∷ records) h b ≡ record {
        handler_state = (handler (message_of r) h).0;
        broker_state = b;
        calls = handled r ∷ [];
        stopped = some e;
      }
  unfolding run
  run-refused e failed = rw (failed, run) refl

  pub run-uncommitted :
      (e : String)
      → (handler (message_of r) h).1 ≡ ok tt
      → (commit_message r b).1 ≡ err e
      → run handler commit_message (ok r ∷ records) h b ≡ record {
        handler_state = (handler (message_of r) h).0;
        broker_state = (commit_message r b).0;
        calls = handled r ∷ committed r ∷ [];
        stopped = some e;
      }
  unfolding run
  run-uncommitted e fine failed = rw (fine, failed, run) refl

  pub run-accepted :
      (handler (message_of r) h).1 ≡ ok tt
      → (commit_message r b).1 ≡ ok tt
      → run handler commit_message (ok r ∷ records) h b
        ≡ before
            (handled r ∷ committed r ∷ [])
            (run handler commit_message records (handler (message_of r) h).0 (commit_message r b).0)
  unfolding run
  run-accepted fine acked = rw (fine, acked, run) refl
