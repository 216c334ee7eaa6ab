-- ===== src/Kafka/Commits.antt =====
-- What a consumer commits: a record's offset only once its handler has accepted it.
use rust_basics.Prelude.{
  ◌≡◌, refl, ap, inl, inr, ◌⊎◌, none, some, List, [], ◌∷◌, ◌++◌, String, Result, ok, err,
  Result-cases,
}
use rust_basics.Kafka.{
  Message, Borrowed, message_of, Call, handled, committed, Progress, before, run,
}
use rust_basics.Kafka.Steps.{run-refused, run-uncommitted, run-accepted}

-- The records that `recv` gave.
abbrev pub received : List (Result String Borrowed) → List Borrowed
received [] = []
received (err e ∷ records) = received records
received (ok r ∷ records) = r ∷ received records

-- Each record handled, then committed, one after the other.
abbrev pub accepted : List Borrowed → List Call
accepted [] = []
accepted (r ∷ rs) = handled r ∷ committed r ∷ accepted rs

module _ {H B : Type 0} (handler : Message → H → H × Result String (Unit {0}))
    (commit_message : Borrowed → B → B × Result String (Unit {0})) where
  -- How a run stops at a record: the calls made for it last, and whose error it was.
  abbrev pub Fails : Borrowed → String → List Call → Type 0
  Fails r e last =
      ((last ≡ handled r ∷ []) × (h : H) × ((handler (message_of r) h).1 ≡ err e))
      ⊎ ((last ≡ handled r ∷ committed r ∷ []) × (b : B) × ((commit_message r b).1 ≡ err e))

  -- How a run stands: it waits, or it stopped at a record.
  abbrev pub Stands : List Borrowed → Progress H B → Type 0
  Stands rs p =
      ((p.stopped ≡ none) × (p.calls ≡ accepted rs))
      ⊎ ((done : List Borrowed) × (r : Borrowed) × (rest : List Borrowed) × (e : String)
          × (last : List Call) × (rs ≡ done ++ r ∷ rest)
          × (p.stopped ≡ some e)
          × (p.calls ≡ accepted done ++ last)
          × Fails r e last)

  Stands-before :
      (r : Borrowed) (rs : List Borrowed) (p : Progress H B)
      → Stands rs p
      → Stands (r ∷ rs) (before (handled r ∷ committed r ∷ []) p)
  Stands-before r rs p (inl (waits, calls)) =
      inl (waits, ap (λ c. handled r ∷ committed r ∷ c) calls)
  Stands-before r rs p (inr (done, q, rest, e, last, split, stopped, calls, fails)) = inr (
    r ∷ done,
    q,
    rest,
    e,
    last,
    ap (λ l. r ∷ l) split,
    stopped,
    ap (λ c. handled r ∷ committed r ∷ c) calls,
    fails,
  )

  -- Whatever the handler and the broker answer, `run` handles and then commits the records in the
  -- order they came, errors of `recv` left out. Either it does so with all of them and still waits,
  -- or it stopped at one: right after its handler failed, with no commit of it, or after its
  -- commit failed; every record before that one was committed, and none after it was touched.
  pub run-Stands :
      (records : List (Result String Borrowed)) (h : H) (b : B)
      → Stands (received records) (run handler commit_message records h b)
  unfolding run
  run-Stands [] h b = inl (refl, refl)
  run-Stands (err e ∷ records) h b = run-Stands records h b
  run-Stands (ok r ∷ records) h b = elim (Result-cases (handler (message_of r) h).1) [
    | inr (e, failed) ↦
        rw (run-refused handler commit_message r records h b e failed)
          (inr ([], r, received records, e, _, refl, refl, refl, inl (refl, h, failed)))
    | inl (_, fine) ↦ elim (Result-cases (commit_message r b).1) [
      | inr (e, failed) ↦
          rw (run-uncommitted handler commit_message r records h b e fine failed)
            (inr ([], r, received records, e, _, refl, refl, refl, inr (refl, b, failed)))
      | inl (_, acked) ↦ rw (run-accepted handler commit_message r records h b fine acked) (
          Stands-before r (received records)
            (run handler commit_message records (handler (message_of r) h).0 (commit_message r b).0)
            (run-Stands records _ _))
    ]
  ]
