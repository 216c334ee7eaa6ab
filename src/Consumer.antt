-- ===== src/Consumer.antt =====
-- crates/consumer/src/lib.rs: the worker that drains the task events. The two counters are those of
-- the metrics library, which are u64: they are taken as below 2^64. Logging is left out.
pub mod Config
pub mod Counts
pub mod Service
mod Tests
use rust_basics.Prelude.{ℕ, ◌+◌, ◌≡◌, refl, Option, none, some, List, String, Result, ok, err}
use rust_basics.Kafka.{Message, Borrowed, Progress}
use rust_basics.Kafka

-- The event as the consumer reads it.
pub record TaskCreatedEvent : Type 0 where
  pub id : String
  pub title : String

pub record Counters : Type 0 where
  pub consumed : ℕ
  pub skipped : ℕ

module _ (from_slice : List ℕ → Result String TaskCreatedEvent) where
  -- The handler that `Worker::run` gives its consumer.
  unfoldable pub handle : Message → Counters → Counters × Result String (Unit {0})
  handle msg c = elim (from_slice msg.payload) [
    | ok event ↦ (record c { consumed = c.consumed + 1 }, ok tt)
    | err error ↦ (record c { skipped = c.skipped + 1 }, ok tt)
  ]

  module _ {B : Type 0} (commit_message : Borrowed → B → B × Result String (Unit {0})) where
    -- `Worker::run`
    unfoldable pub run : List (Result String Borrowed) → Counters → B → Progress Counters B
    run records c b = Kafka.run handle commit_message records c b
