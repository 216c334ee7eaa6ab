-- ===== src/Kafka/Redelivery.antt =====
-- crates/kafka/src/lib.rs: a consumer that is stopped and started again. Its group resumes at the
-- offset that the broker has; commits are asynchronous, so that one that was asked for may be lost.
mod Tests
use mathlib.Core.List.{append_assoc, Memᴰ}
use mathlib.Core.List.Memᴰ
use rust_basics.Prelude.{
  ℕ, zero, suc, ◌+◌, ◌≤◌, ◌<◌, ◌≡◌, refl, ap, sym, ◌∙◌, subst, inl, inr, List, [], ◌∷◌, ◌++◌,
  String, Result, ok, err, Result-cases, arith, leb, Bool-cases, ◌⊎◌,
}
use rust_basics.Kafka.{Message, Borrowed, message_of, Call, handled, committed, run}
use rust_basics.Kafka.Steps.{run-refused, run-uncommitted, run-accepted}
use rust_basics.Kafka.Commits.{received}

at_or_above : (c k : ℕ) → c ≤ k → (k ≡ c) ⊎ (c + 1 ≤ k)
at_or_above c k h = elim (Bool-cases (leb k c)) [
  | inl e ↦ inl (ground arith)
  | inr e ↦ inr (ground arith)
]

below_or_not : (k c : ℕ) → (k < c) ⊎ (c ≤ k)
below_or_not k c = elim (Bool-cases (leb c k)) [
  | inl e ↦ inr (ground arith)
  | inr e ↦ inl (ground arith)
]

-- What a group's offset can be after a session that began at `c` and made these calls: still `c`, or
-- behind one of the records whose commit was asked for.
pub data Resumes (c : ℕ) (calls : List Call) : ℕ → Type 0 where
  keeps : Resumes c calls c
  moves : (r : Borrowed) → Memᴰ (committed r) calls → Resumes c calls (r.offset + 1)

abbrev pub slice : (ℕ → Borrowed) → ℕ → ℕ → List Borrowed
slice log c zero = []
slice log c (suc n) = log c ∷ slice log (c + 1) n

module _ {H B : Type 0} (handler : Message → H → H × Result String (Unit {0}))
    (commit_message : Borrowed → B → B × Result String (Unit {0})) (log : ℕ → Borrowed) where
  -- What a group has done on a partition, whose record at each offset is `log`'s: its offset, and
  -- the calls of all its sessions so far. A session begins at the offset, receives as many records
  -- from there as it will, with errors of `recv` between them, and ends at any time.
  pub data Sessions : ℕ → List Call → Type 0 where
    none_yet : Sessions 0 []
    session :
        {c : ℕ} {past : List Call}
        → Sessions c past
        → (n : ℕ) (records : List (Result String Borrowed)) (h : H) (b : B) (c' : ℕ)
        → received records ≡ slice log c n
        → Resumes c (run handler commit_message records h b).calls c'
        → Sessions c' (past ++ (run handler commit_message records h b).calls)

  -- The handler was given the record and accepted it, and then its commit was asked for.
  pub record Accepted (calls : List Call) (r : Borrowed) : Type 0 where
    pub earlier : List Call
    pub later : List Call
    pub made : calls ≡ earlier ++ handled r ∷ committed r ∷ later
    pub state : H
    pub fine : (handler (message_of r) state).1 ≡ ok tt

  Accepted-after :
      (more calls : List Call) (r : Borrowed) → Accepted calls r → Accepted (more ++ calls) r
  Accepted-after more calls r a = record {
    earlier = more ++ a.earlier;
    later = a.later;
    state = a.state;
    fine = a.fine;
    made = ap (λ cs. more ++ cs) a.made ∙ sym (append_assoc more a.earlier _);
  }

  Accepted-before :
      (calls more : List Call) (r : Borrowed) → Accepted calls r → Accepted (calls ++ more) r
  Accepted-before calls more r a = record {
    earlier = a.earlier;
    later = a.later ++ more;
    state = a.state;
    fine = a.fine;
    made = ap (λ cs. cs ++ more) a.made ∙ append_assoc a.earlier _ more;
  }

  -- A record of the slice with all those of it that came before, each accepted.
  pub record Covers (c : ℕ) (calls : List Call) (r : Borrowed) : Type 0 where
    pub at : ℕ
    pub is : r ≡ log at
    pub above : c ≤ at
    pub all : (k : ℕ) → c ≤ k → k ≤ at → Accepted calls (log k)

  Covers-here :
      (c : ℕ) (r q : Borrowed) (h : H) (later : List Call)
      → r ≡ log c
      → (handler (message_of r) h).1 ≡ ok tt
      → q ≡ r
      → Covers c (handled r ∷ committed r ∷ later) q
  Covers-here c r q h later at fine same = record {
    at = c;
    is = same ∙ at;
    above = omega arith;
    all = λ k low high.
        subst (Accepted (handled r ∷ committed r ∷ later)) (at ∙ ap log (omega (arith, low, high)))
          (record { earlier = []; later = later; made = refl; state = h; fine = fine });
  }

  Covers-next :
      (c : ℕ) (r q : Borrowed) (h : H) (later : List Call)
      → r ≡ log c
      → (handler (message_of r) h).1 ≡ ok tt
      → Covers (c + 1) later q
      → Covers c (handled r ∷ committed r ∷ later) q
  Covers-next c r q h later at fine rest = record {
    at = rest.at;
    is = rest.is;
    above = omega (arith, rest.above);
    all = λ k low high. elim (at_or_above c k low) [
      | inl e ↦
          subst (Accepted (handled r ∷ committed r ∷ later)) (at ∙ ap log (sym e))
            (record { earlier = []; later = later; made = refl; state = h; fine = fine })
      | inr up ↦ Accepted-after (handled r ∷ committed r ∷ []) later (log k) (rest.all k up high)
    ];
  }

  committed-inj : {q r : Borrowed} → committed q ≡ committed r → q ≡ r
  committed-inj e = cc

  asked_cases :
      (q r : Borrowed) (later : List Call)
      → Memᴰ (committed q) (handled r ∷ committed r ∷ later)
      → (q ≡ r) ⊎ Memᴰ (committed q) later
  asked_cases q r later (Memᴰ.head e) = cc
  asked_cases q r later (Memᴰ.tail (Memᴰ.head e)) = inl (committed-inj e)
  asked_cases q r later (Memᴰ.tail (Memᴰ.tail m)) = inr m

  not_asked : (q r : Borrowed) → Memᴰ (committed q) (handled r ∷ []) → ⊥
  not_asked q r (Memᴰ.head e) = cc
  not_asked q r (Memᴰ.tail m) = Memᴰ.not-nil m

  Covers-last :
      (c : ℕ) (r q : Borrowed) (h : H) (later : List Call)
      → r ≡ log c
      → (handler (message_of r) h).1 ≡ ok tt
      → Memᴰ (committed q) (handled r ∷ committed r ∷ later)
      → (Memᴰ (committed q) later → Covers (c + 1) later q)
      → Covers c (handled r ∷ committed r ∷ later) q
  Covers-last c r q h later at fine m rest = elim (asked_cases q r later m) [
    | inl same ↦ Covers-here c r q h later at fine same
    | inr m ↦ Covers-next c r q h later at fine (rest m)
  ]

  slice-head :
      (c n : ℕ) (r : Borrowed) (records : List (Result String Borrowed))
      → received (ok r ∷ records) ≡ slice log c (suc n)
      → r ≡ log c
  slice-head c n r records e = cc

  slice-tail :
      (c n : ℕ) (r : Borrowed) (records : List (Result String Borrowed))
      → received (ok r ∷ records) ≡ slice log c (suc n)
      → received records ≡ slice log (c + 1) n
  slice-tail c n r records e = cc

  run-Covers :
      (records : List (Result String Borrowed)) (c n : ℕ) (h : H) (b : B) (q : Borrowed)
      → received records ≡ slice log c n
      → Memᴰ (committed q) (run handler commit_message records h b).calls
      → Covers c (run handler commit_message records h b).calls q
  unfolding run
  run-Covers [] c n h b q given m = absurd (Memᴰ.not-nil m)
  run-Covers (err e ∷ records) c n h b q given m = run-Covers records c n h b q given m
  run-Covers (ok r ∷ records) c zero h b q given m = cc
  run-Covers (ok r ∷ records) c (suc n) h b q given m =
      elim (Result-cases (handler (message_of r) h).1) [
        | inr (e, failed) ↦
            let q' = run-refused handler commit_message r records h b e failed in
            absurd (not_asked q r (rw q' at m))
        | inl (_, fine) ↦ elim (Result-cases (commit_message r b).1) [
          | inr (e, failed) ↦
              let ran = run-uncommitted handler commit_message r records h b e fine failed in
              rw ran (
                Covers-last c r q h [] (slice-head c n r records given) fine (rw ran at m)
                  (λ m. absurd (Memᴰ.not-nil m)))
          | inl (_, acked) ↦
              let ran = run-accepted handler commit_message r records h b fine acked in
              let h' = (handler (message_of r) h).0 in
              let b' = (commit_message r b).0 in
              let rest = run-Covers records (c + 1) n h' b' q (slice-tail c n r records given) in
              rw ran (
                Covers-last c r q h (run handler commit_message records h' b').calls
                  (slice-head c n r records given) fine (rw ran at m) rest)
        ]
      ]

  -- However often the consumer is stopped and started again, and whichever of its commits are lost:
  -- below the group's offset, from which the next session goes on, every record of the partition was
  -- given to the handler and accepted by it, before the commit that moved the offset was asked for.
  pub restarts-Accepted :
      {c : ℕ} {past : List Call}
      → ((k : ℕ) → (log k).offset ≡ k)
      → Sessions c past
      → (k : ℕ) → k < c
      → Accepted past (log k)
  restarts-Accepted numbered none_yet k below = absurd (omega arith)
  restarts-Accepted numbered (session s n records h b c' given keeps) k below =
      Accepted-before _ _ (log k) (restarts-Accepted numbered s k below)
  restarts-Accepted numbered (session s n records h b c' given (moves r asked)) k below =
      let covers = run-Covers records _ n h b r given asked in
      let same = ap (λ x. x.offset) covers.is ∙ numbered covers.at in
      elim (below_or_not k _) [
        | inl low ↦ Accepted-before _ _ (log k) (restarts-Accepted numbered s k low)
        | inr up ↦ Accepted-after _ _ (log k) (covers.all k up (omega (arith, same)))
      ]
