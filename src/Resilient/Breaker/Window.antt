-- ===== src/Resilient/Breaker/Window.antt =====
-- The breaker's two counters against the history that they count.
use rust_basics.Prelude.{
  ℕ, suc, ◌+◌, ◌-◌, ◌^◌, ◌≤◌, ◌<◌, ◌≡◌, refl, sym, ◌∙◌, ◌↔◌, inl, inr, true, false, false≢true,
  List, [], ◌∷◌, ◌++◌, All, length, arith, Bool-cases, if◌then◌else◌,
}
use rust_basics.Resilient.Float.{Float}
use rust_basics.Resilient.Breaker.{
  closed, open_, Cells, Limits, state_of, trips, open_circuit, record_success, record_failure,
}

pub data Outcome : Type 0 where
  success failure : Outcome

abbrev pub failures : List (Outcome × ℕ) → ℕ
failures [] = 0
failures ((success, _) ∷ os) = failures os
failures ((failure, _) ∷ os) = suc (failures os)

module _ (fl : Float) (l : Limits (Float.F64 fl)) where
  -- A call records one outcome, and reads one time.
  note : Cells → Outcome × ℕ → Cells
  note c (success, now) = record_success fl l c now
  note c (failure, now) = record_failure fl l c now now

  pub feed : Cells → List (Outcome × ℕ) → Cells
  feed c [] = c
  feed c (o ∷ os) = feed (note c o) os

  -- The window that began at `start` has not run out.
  abbrev pub InWindow : ℕ → Outcome × ℕ → Type 0
  InWindow start (_, now) = now - start < l.window_duration_ms

  note-open : (c : Cells) (o : Outcome × ℕ) → state_of c ≡ open_ → note c o ≡ c
  unfolding note record_success record_failure
  note-open c (success, now) h = ground arith
  note-open c (failure, now) h = ground arith

  feed-open : (c : Cells) (os : List (Outcome × ℕ)) → state_of c ≡ open_ → feed c os ≡ c
  unfolding feed
  feed-open c [] h = refl
  feed-open c (o ∷ os) h = rw (note-open c o h) (feed-open c os h)

  opened : (c : Cells) (now : ℕ) → state_of (open_circuit fl c now) ≡ open_
  unfolding open_circuit
  opened c now = refl

  note_success :
      (c : Cells) (now : ℕ)
      → state_of c ≡ closed
      → now - c.window_start_ms < l.window_duration_ms
      → c.window_requests + 1 < 2 ^ 32
      → note c (success, now) ≡ record c { window_requests = c.window_requests + 1 }
  unfolding note record_success
  note_success c now s w small = ground arith

  abbrev counted : Cells → Cells
  counted c = record c {
    window_requests = c.window_requests + 1;
    window_failures = c.window_failures + 1;
  }

  note_failure :
      (c : Cells) (now : ℕ)
      → state_of c ≡ closed
      → now - c.window_start_ms < l.window_duration_ms
      → c.window_requests + 1 < 2 ^ 32
      → c.window_failures ≤ c.window_requests
      → note c (failure, now) ≡ (
          if trips fl l (c.window_requests + 1) (c.window_failures + 1)
          then open_circuit fl (counted c) now
          else counted c)
  unfolding note record_failure
  note_failure c now s w small v = ground arith

  -- A failure that meets the threshold: the requests and the failures of the window up to it
  -- trip the breaker.
  abbrev pub Trips : ℕ → ℕ → List (Outcome × ℕ) → Type 0
  Trips r f os =
      (before : List (Outcome × ℕ)) × (now : ℕ) × (after : List (Outcome × ℕ)) × (os
        ≡ before ++ ((failure, now) ∷ after))
      × (trips fl l (r + length before + 1) (f + failures before + 1) ≡ true)

  trips_at : {r r' f f' : ℕ} → r ≡ r' → f ≡ f' → trips fl l r f ≡ true → trips fl l r' f' ≡ true
  trips_at p q h = rw (← p, ← q) h

  Trips-success :
      (r f now : ℕ) (os : List (Outcome × ℕ)) → Trips (r + 1) f os ↔ Trips r f ((success, now) ∷ os)
  Trips-success r f now os = (there, back)
    where
      there : Trips (r + 1) f os → Trips r f ((success, now) ∷ os)
      there (before, t, after, e, h) =
          ((success, now) ∷ before, t, after, rw e, trips_at (omega arith) refl h)

      back : Trips r f ((success, now) ∷ os) → Trips (r + 1) f os
      back ([], t, after, e, h) = cc
      back ((success, _) ∷ before, t, after, e, h) =
          (before, t, after, cc, trips_at (omega arith) refl h)
      back ((failure, _) ∷ before, t, after, e, h) = cc

  Trips-failure :
      (r f now : ℕ) (os : List (Outcome × ℕ))
      → trips fl l (r + 1) (f + 1) ≡ false
      → Trips (r + 1) (f + 1) os ↔ Trips r f ((failure, now) ∷ os)
  Trips-failure r f now os calm = (there, back)
    where
      there : Trips (r + 1) (f + 1) os → Trips r f ((failure, now) ∷ os)
      there (before, t, after, e, h) =
          ((failure, now) ∷ before, t, after, rw e, trips_at (omega arith) (omega arith) h)

      back : Trips r f ((failure, now) ∷ os) → Trips (r + 1) (f + 1) os
      back ([], t, after, e, h) =
          absurd (
            false≢true
              (sym calm ∙ trips_at {r' = r + 1} {f' = f + 1} (omega arith) (omega arith) h))
      back ((failure, _) ∷ before, t, after, e, h) =
          (before, t, after, cc, trips_at (omega arith) (omega arith) h)
      back ((success, _) ∷ before, t, after, e, h) = cc

  -- While the window lasts, a closed circuit that is fed outcomes ends up open exactly when one of
  -- the failures met the threshold: with the requests and the failures counted from the cells'
  -- counters up to and with it, `requests >= min_requests` and the ratio is high enough. The
  -- 32-bit counters must not wrap.
  pub feed-opens :
      (c : Cells) (os : List (Outcome × ℕ))
      → state_of c ≡ closed
      → c.window_failures ≤ c.window_requests
      → c.window_requests + length os < 2 ^ 32
      → All (InWindow c.window_start_ms) os
      → (state_of (feed c os) ≡ open_) ↔ Trips c.window_requests c.window_failures os
  unfolding feed
  feed-opens c [] s v small w = (λ e. cc, λ t. nothing_trips t)
    where
      nothing_trips : Trips c.window_requests c.window_failures [] → state_of c ≡ open_
      nothing_trips ([], t, after, e, h) = cc
      nothing_trips (o ∷ before, t, after, e, h) = cc
  feed-opens c ((success, now) ∷ os) s v small w =
      let next = record c { window_requests = c.window_requests + 1 } in
      let ih = feed-opens next os s (omega arith) (omega arith) w.1 in
      let shift = Trips-success c.window_requests c.window_failures now os in
      rw (note_success c now s w.0 (omega arith), feed)
        (λ e. shift.0 (ih.0 e), λ t. ih.1 (shift.1 t))
  feed-opens c ((failure, now) ∷ os) s v small w =
      let ih = feed-opens (counted c) os s (omega arith) (omega arith) w.1 in
      rw (note_failure c now s w.0 (omega arith) v, feed)
        (elim (Bool-cases (trips fl l (c.window_requests + 1) (c.window_failures + 1))) [
          | inl hit ↦
              rw (hit, feed-open (open_circuit fl (counted c) now) os (opened (counted c) now))
                (
                  λ _. ([], now, os, refl, trips_at (omega arith) (omega arith) hit),
                  λ _. opened (counted c) now,
                )
          | inr calm ↦
              let shift = Trips-failure c.window_requests c.window_failures now os calm in
              rw calm (λ e. shift.0 (ih.0 e), λ t. ih.1 (shift.1 t))
        ])
