-- ===== src/Pipeline.antt =====
-- crates/tasks and crates/consumer together: the events that `create` publishes, over the broker, to
-- the handler of the consumer. The two services share no type, only the JSON on the wire.
pub mod Wire
mod Tests
use rust_basics.Prelude.{ℕ, zero, suc, ◌+◌, ◌≡◌, ◌⊎◌, none, some, List, [], ◌∷◌, String, Result, ok}
use rust_basics.Valkey.{IsServer}
use rust_basics.Kafka.{Borrowed, Broker}
use rust_basics.Kafka
use rust_basics.Tasks.Domain.{TaskCreatedEvent}
use rust_basics.Tasks.Handlers.{AppState, CreateTask, Outside, create}
use rust_basics.Pipeline.Wire.{SerdeJson, IsSerdeJson, to_object, decode}
use rust_basics.Consumer as Consumer
use rust_basics.Consumer.{Counters}

-- A payload so many times in front of others: a producer that tries again can send one twice.
abbrev pub repeated : ℕ → List ℕ → List (List ℕ) → List (List ℕ)
repeated zero p ps = ps
repeated (suc n) p ps = p ∷ repeated n p ps

-- What the broker holds: a send puts its payload there some number of times, acknowledged or not.
pub record IsBroker (broker : Broker) : Type 0 where
  pub payloads : Broker.B broker → List (List ℕ)
  pub payloads-send :
      (topic : String) (key payload : List ℕ) (b : Broker.B broker)
      → (n : ℕ) × (payloads (Broker.send broker topic key payload b).0
          ≡ repeated n payload (payloads b))

-- One request to create a task: the new id, the clock, and the body.
pub record Creation : Type 0 where
  pub uuid : String
  pub now_secs : ℕ
  pub body : Result (Unit {0}) CreateTask

module _ (out : Outside) (law : IsServer (Outside.server out)) (state : AppState)
    (log : IsBroker (Outside.broker out)) (json : SerdeJson) (serde : IsSerdeJson json)
    (derived : (e : TaskCreatedEvent)
      → Outside.to_vec out e ≡ SerdeJson.to_vec json (to_object e)) where
  open out use {server, broker, to_vec, as_bytes}
  open server use {S}
  open broker use {B}
  open log use {payloads, payloads-send}

  -- A payload that the consumer reads.
  abbrev pub Readable : List ℕ → Type 0
  Readable payload = (event : Consumer.TaskCreatedEvent) × (decode json payload ≡ ok event)

  unfoldable pub creations : List Creation → S → B → S × B
  creations [] s b = (s, b)
  creations (c ∷ rest) s b =
      let ((s', b'), reply) = create out state c.uuid c.now_secs c.body s b in creations rest s' b'

  abbrev pub Among : List ℕ → List (List ℕ) → Type 0
  Among p [] = ⊥
  Among p (q ∷ qs) = (p ≡ q) ⊎ Among p qs

  -- A record whose payload the broker holds.
  abbrev pub Delivered : List (List ℕ) → Borrowed → Type 0
  Delivered held r = (p : List ℕ) × (r.payload ≡ some p) × Among p held

  abbrev pub received : List Borrowed → List (Result String Borrowed)
  received [] = []
  received (r ∷ rs) = ok r ∷ received rs

  module _ {Offsets : Type 0}
      (commit : Borrowed → Offsets → Offsets × Result String (Unit {0})) where
    -- Nothing was skipped, and everything was consumed unless a commit stopped the worker.
    abbrev pub AllConsumed : Counters → ℕ → Kafka.Progress Counters Offsets → Type 0
    AllConsumed c n p =
        (p.handler_state.skipped ≡ c.skipped)
        × (((p.stopped ≡ none) × (p.handler_state.consumed ≡ c.consumed + n))
            ⊎ ((e : String) × (p.stopped ≡ some e)))
