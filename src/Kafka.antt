-- ===== src/Kafka.antt =====
-- crates/kafka/src/lib.rs: publishing a record, and the loop of a consumer group. The client library
-- is a parameter; partitions and offsets, which are only passed on, are natural numbers.
pub mod Config
pub mod Commits
pub mod Redelivery
pub mod Steps
pub mod Connect
pub mod Sample
use rust_basics.Prelude.{
  ℕ, ◌≡◌, refl, Option, none, some, List, [], ◌∷◌, ◌++◌, String, str_eq, Result, ok, err, format,
  if◌then◌else◌,
}

-- One record as a handler gets it.
pub record Message : Type 0 where
  pub topic : String
  pub key : Option (List ℕ)
  pub payload : List ℕ
  pub partition : ℕ
  pub offset : ℕ

-- One record as `recv` lends it.
pub record Borrowed : Type 0 where
  pub topic : String
  pub key : Option (List ℕ)
  pub payload : Option (List ℕ)
  pub partition : ℕ
  pub offset : ℕ

abbrev or_default : Option (List ℕ) → List ℕ
or_default none = []
or_default (some bytes) = bytes

unfoldable pub message_of : Borrowed → Message
message_of b = record {
  topic = b.topic;
  key = b.key;
  payload = or_default b.payload;
  partition = b.partition;
  offset = b.offset;
}

-- The broker as the producer sees it: one send, with its acknowledgement.
pub record Broker : Type 1 where
  pub B : Type 0
  pub send : String → List ℕ → List ℕ → B → B × Result String (Unit {0})

pub record Producer : Type 0 where
  pub default_topic : String

abbrev pub map_err : String → Result String (Unit {0}) → Result String (Unit {0})
map_err topic (ok _) = ok tt
map_err topic (err e) = err (format ("kafka publish to " ∷ topic ∷ ": " ∷ e ∷ []))

module _ (broker : Broker) where
  open broker use {B, send}

  unfoldable pub publish : Producer → String → List ℕ → List ℕ → B → B × Result String (Unit {0})
  publish p topic key payload b =
      let to = if str_eq topic "" then p.default_topic else topic in
      let (after, answer) = send to key payload b in (after, map_err to answer)

-- A call that the consumer makes for a record.
pub data Call : Type 0 where
  handled committed : Borrowed → Call

-- Where a consumer stands: the handler's state, the broker's, the calls made so far, and the error
-- that `run` returned, if it has.
pub record Progress (H B : Type 0) : Type 0 where
  pub handler_state : H
  pub broker_state : B
  pub calls : List Call
  pub stopped : Option String

abbrev pub before : {H B : Type 0} → List Call → Progress H B → Progress H B
before cs p = record p { calls = cs ++ p.calls }

module _ {H B : Type 0} (handler : Message → H → H × Result String (Unit {0}))
    (commit_message : Borrowed → B → B × Result String (Unit {0})) where
  -- `Consumer::run` over what `recv` gives: it still waits for more where it has not stopped.
  unfoldable pub run : List (Result String Borrowed) → H → B → Progress H B
  run [] h b = record { handler_state = h; broker_state = b; calls = []; stopped = none }
  run (err e ∷ records) h b = run records h b
  run (ok r ∷ records) h b =
      let (h', answer) = handler (message_of r) h in
      elim answer [
        | err e ↦ record {
          handler_state = h';
          broker_state = b;
          calls = handled r ∷ [];
          stopped = some e;
        }
        | ok _ ↦
            let (b', acknowledged) = commit_message r b in
            elim acknowledged [
              | err e ↦ record {
                handler_state = h';
                broker_state = b';
                calls = handled r ∷ committed r ∷ [];
                stopped = some e;
              }
              | ok _ ↦ before (handled r ∷ committed r ∷ []) (run records h' b')
            ]
      ]
