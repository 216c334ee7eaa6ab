-- ===== src/Consumer/Counts.antt =====
-- What the worker's counters count, and that no record stops it.
use rust_basics.Prelude.{
  ℕ, ◌+◌, ◌≡◌, refl, inl, inr, ◌⊎◌, Bool, true, false, none, some, List, [], ◌∷◌, String, Result,
  ok, err, Result-cases, arith, if◌then◌else◌, Bool-cases,
}
use rust_basics.Kafka.{Message, Borrowed, message_of, Call, handled, committed, Progress, before}
use rust_basics.Kafka
use rust_basics.Kafka.Steps.{run-uncommitted, run-accepted}
use rust_basics.Consumer.{TaskCreatedEvent, Counters, handle, run}

module _ {B : Type 0} (from_slice : List ℕ → Result String TaskCreatedEvent)
    (commit_message : Borrowed → B → B × Result String (Unit {0})) where
  abbrev decodes : Borrowed → Bool
  decodes r = elim (from_slice (Message.payload (message_of r))) [ ok _ ↦ true | err _ ↦ false ]

  -- How many of the records that were handled decode, and how many do not.
  abbrev pub decodable : List Call → ℕ
  decodable [] = 0
  decodable (handled r ∷ cs) = (if decodes r then 1 else 0) + decodable cs
  decodable (committed r ∷ cs) = decodable cs

  abbrev pub undecodable : List Call → ℕ
  undecodable [] = 0
  undecodable (handled r ∷ cs) = (if decodes r then 0 else 1) + undecodable cs
  undecodable (committed r ∷ cs) = undecodable cs

  -- The run counted what it handled, and if it stopped, then a commit was refused.
  abbrev pub Counted : Counters → Progress Counters B → Type 0
  Counted c p =
      (p.handler_state.consumed ≡ c.consumed + decodable p.calls)
      × (p.handler_state.skipped ≡ c.skipped + undecodable p.calls)
      × ((p.stopped ≡ none)
          ⊎ ((r : Borrowed) × (b : B) × (e : String) × ((commit_message r b).1 ≡ err e)
              × (p.stopped ≡ some e)))

  -- What the handler does to the counters, by whether the record decodes.
  abbrev counted : Borrowed → Counters → Counters
  counted r c =
      if decodes r
      then record c { consumed = c.consumed + 1 }
      else record c { skipped = c.skipped + 1 }

  handle_lem :
      (r : Borrowed) (c : Counters)
      → ((handle from_slice (message_of r) c).0 ≡ counted r c)
        × ((handle from_slice (message_of r) c).1 ≡ ok tt)
  unfolding handle
  handle_lem r c = elim (Result-cases (from_slice (Message.payload (message_of r)))) [
    | inl (event, read) ↦ (ground arith, ground arith)
    | inr (error, unread) ↦ (ground arith, ground arith)
  ]

  Counted-before :
      (r : Borrowed) (c : Counters) (p : Progress Counters B)
      → Counted (counted r c) p
      → Counted c (before (handled r ∷ committed r ∷ []) p)
  Counted-before r c p (consumed, skipped, last) = elim (Bool-cases (decodes r)) [
    | inl e ↦ (ground arith, ground arith, last)
    | inr e ↦ (ground arith, ground arith, last)
  ]

  Counted-last :
      (r : Borrowed) (c : Counters) (b b' : B) (e : String)
      → (commit_message r b).1 ≡ err e
      → Counted c record {
        handler_state = counted r c;
        broker_state = b';
        calls = handled r ∷ committed r ∷ [];
        stopped = some e;
      }
  Counted-last r c b b' e refused = elim (Bool-cases (decodes r)) [
    | inl d ↦ (ground arith, ground arith, inr (r, b, e, refused, refl))
    | inr d ↦ (ground arith, ground arith, inr (r, b, e, refused, refl))
  ]

  -- Over whatever records come, each handled record adds one to `consumed` if it decodes and one to
  -- `skipped` if it does not, and the worker stops only with the error of a commit: no record, and
  -- no error of `recv`, stops it.
  pub run-Counted :
      (records : List (Result String Borrowed)) (c : Counters) (b : B)
      → Counted c (run from_slice commit_message records c b)
  unfolding run Kafka.run
  run-Counted [] c b = (omega arith, omega arith, inl refl)
  run-Counted (err e ∷ records) c b = run-Counted records c b
  run-Counted (ok r ∷ records) c b =
      let (counts, fine) = handle_lem r c in
      elim (Result-cases (commit_message r b).1) [
        | inl (_, acked) ↦
            rw (run-accepted (handle from_slice) commit_message r records c b fine acked, counts)
              (Counted-before r c
                (run from_slice commit_message records (counted r c) (commit_message r b).0)
                (run-Counted records _ _))
        | inr (e, refused) ↦
            rw
              (
                run-uncommitted (handle from_slice) commit_message r records c b e fine refused,
                counts,
              )
              (Counted-last r c b (commit_message r b).0 e refused)
      ]
