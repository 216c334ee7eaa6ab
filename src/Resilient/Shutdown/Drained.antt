-- ===== src/Resilient/Shutdown/Drained.antt =====
-- What `shutdown` waits for, and a request that it misses.
use rust_basics.Prelude.{
  ℕ, zero, suc, ◌∙◌, ◌+◌, ◌^◌, ◌≤◌, ◌<◌, ◌≡◌, ◌⊎◌, inl, inr, refl, true, List, [], ◌∷◌, length, ok,
  arith, subst, if_both, ◌==◌, Bool-cases,
}
use rust_basics.Resilient.Shutdown.{
  Notify, Waiter, before, flagged, counting, registered, waiting, expired, returned, Action, check,
  bail, leave, load_flag, enter, store_flag, first_load, register, second_load, wake, expire,
  last_load, enter_step, leave_step, load_flag_step, shutdown_step, Drain, start, act, follow,
}

module _ (tokio : Notify) where
  open tokio use {
    Ticket, Registered, is_ready, notified, notified-Registered, notify_waiters-Registered,
    notify_waiters-is_ready,
  }

  -- A wait that is not ready yet has a request to wait for.
  abbrev Awaits : Ticket → Drain tokio → Type 0
  Awaits t d = (is_ready d.cell t ≡ true) ⊎ (0 < d.flying + d.leaving)

  -- What holds where `shutdown` stands.
  abbrev Stands : Waiter Ticket → Drain tokio → Type 0
  Stands before d = Unit {0}
  Stands flagged d = d.is_shutting_down ≡ true
  Stands counting d = d.is_shutting_down ≡ true
  Stands (registered t) d = (d.is_shutting_down ≡ true) × Registered d.cell t
  Stands (waiting t) d = (d.is_shutting_down ≡ true) × Registered d.cell t × Awaits t d
  Stands expired d = Unit {0}
  Stands (returned r) d = Unit {0}

  -- `n` accesses may still come.
  record Inv (n : ℕ) (d : Drain tokio) : Type 0 where
    counted : d.in_flight ≡ d.flying
    room : d.flying + n < 2 ^ 64
    stands : Stands d.waiter d

  Stands-keep :
      (w : Waiter Ticket) (d e : Drain tokio)
      → e.is_shutting_down ≡ d.is_shutting_down
      → ((t : Ticket) → Registered d.cell t → Registered e.cell t)
      → ((t : Ticket) → d.is_shutting_down ≡ true → Registered d.cell t → Awaits t d → Awaits t e)
      → Stands w d
      → Stands w e
  Stands-keep before d e p f g h = tt
  Stands-keep flagged d e p f g h = p ∙ h
  Stands-keep counting d e p f g h = p ∙ h
  Stands-keep (registered t) d e p f g h = (p ∙ h.0, f t h.1)
  Stands-keep (waiting t) d e p f g h = (p ∙ h.0, f t h.1, g t h.0 h.1 h.2)
  Stands-keep expired d e p f g h = tt
  Stands-keep (returned r) d e p f g h = tt

  enter_step-Inv :
      (n k : ℕ) (d : Drain tokio) → d.checked ≡ k → Inv (suc n) d → Inv n (enter_step tokio k d)
  unfolding enter_step
  enter_step-Inv n zero d e v = record {
    counted = v.counted;
    room = omega (arith, v.room);
    stands = v.stands;
  }
  enter_step-Inv n (suc k) d e v = record {
    counted = omega (arith, v.counted, v.room);
    room = omega (arith, v.room);
    stands = Stands-keep d.waiter d _ refl (λ t r. r) (λ t s r a. inr (omega arith)) v.stands;
  }

  leave_step-Inv :
      (n k : ℕ) (d : Drain tokio) → d.flying ≡ k → Inv (suc n) d → Inv n (leave_step tokio k d)
  unfolding leave_step
  leave_step-Inv n zero d e v = record {
    counted = v.counted;
    room = omega (arith, v.room);
    stands = v.stands;
  }
  leave_step-Inv n (suc k) d e v = record {
    counted = omega (arith, v.counted, v.room);
    room = omega (arith, v.room);
    stands =
        Stands-keep d.waiter d _ refl (λ t r. r) (λ t s r a. inr (ground (arith, v.counted)))
          v.stands;
  }

  load_flag_step-Inv :
      (n k : ℕ) (d : Drain tokio) → d.leaving ≡ k → Inv (suc n) d → Inv n (load_flag_step tokio k d)
  unfolding load_flag_step
  load_flag_step-Inv n zero d e v = record {
    counted = v.counted;
    room = omega (arith, v.room);
    stands = v.stands;
  }
  load_flag_step-Inv n (suc k) d e v = record {
    counted = v.counted;
    room = omega (arith, v.room);
    stands =
        Stands-keep d.waiter d _ refl (λ t r. ground (arith, notify_waiters-Registered d.cell t r))
          (λ t s r a. ground (arith, notify_waiters-is_ready d.cell t r)) v.stands;
  }

  -- An access of `shutdown` counts no request in or out.
  Inv-shutdown :
      (n : ℕ) (d e : Drain tokio)
      → e.in_flight ≡ d.in_flight
      → e.flying ≡ d.flying
      → Inv (suc n) d
      → Stands e.waiter e
      → Inv n e
  Inv-shutdown n d e p q v s = record {
    counted = omega (arith, v.counted);
    room = omega (arith, v.room);
    stands = s;
  }

  shutdown_step-Inv :
      (n : ℕ) (w : Waiter Ticket) (a : Action) (d : Drain tokio)
      → d.waiter ≡ w
      → Inv (suc n) d
      → Stands w d
      → Inv n (shutdown_step tokio w a d)
  unfolding shutdown_step
  shutdown_step-Inv n before store_flag d e v s = Inv-shutdown n d _ refl refl v refl
  shutdown_step-Inv n flagged first_load d e v s =
      Inv-shutdown n d _ refl refl v
        (elim (Bool-cases (d.in_flight == 0)) [ inl z ↦ rw z tt | inr z ↦ rw z s ])
  shutdown_step-Inv n counting register d e v s =
      Inv-shutdown n d _ refl refl v (s, notified-Registered d.cell)
  shutdown_step-Inv n (registered t) second_load d e v s =
      Inv-shutdown n d _ refl refl v (elim (Bool-cases (d.in_flight == 0)) [
        | inl z ↦ rw z tt
        | inr z ↦ rw z (s.0, s.1, inr (ground (arith, v.counted)))
      ])
  shutdown_step-Inv n (waiting t) wake d e v s = elim (Bool-cases (is_ready d.cell t)) [
    | inl z ↦ rw z (Inv-shutdown n d _ refl refl v tt)
    | inr z ↦ rw z (Inv-shutdown n d d refl refl v v.stands)
  ]
  shutdown_step-Inv n (waiting t) expire d e v s = Inv-shutdown n d _ refl refl v tt
  shutdown_step-Inv n expired last_load d e v s = Inv-shutdown n d _ refl refl v tt
  shutdown_step-Inv n _ _ d e v s = Inv-shutdown n d d refl refl v v.stands

  act-Inv : (n : ℕ) (a : Action) (d : Drain tokio) → Inv (suc n) d → Inv n (act tokio a d)
  unfolding act
  act-Inv n check d v =
      if_both (Inv n) d.is_shutting_down (Inv-shutdown n d d refl refl v v.stands) (
        Inv-shutdown n d _ refl refl v
          (Stands-keep d.waiter d _ refl (λ t r. r) (λ t f r a. a) v.stands))
  act-Inv n bail d v =
      Inv-shutdown n d _ refl refl v
        (Stands-keep d.waiter d _ refl (λ t r. r) (λ t f r a. a) v.stands)
  act-Inv n enter d v = enter_step-Inv n d.checked d refl v
  act-Inv n leave d v = leave_step-Inv n d.flying d refl v
  act-Inv n load_flag d v = load_flag_step-Inv n d.leaving d refl v
  act-Inv n a d v = shutdown_step-Inv n d.waiter a d refl v v.stands

  follow-Inv :
      (n : ℕ) (rest : List Action) (d : Drain tokio)
      → Inv (length rest + n) d
      → Inv n (follow tokio rest d)
  unfolding follow
  follow-Inv n [] d v = record {
    counted = v.counted;
    room = omega (arith, v.room);
    stands = v.stands;
  }
  follow-Inv n (a ∷ rest) d v = follow-Inv n rest (act tokio a d) (
      act-Inv (length rest + n) a d
        (record { counted = v.counted; room = omega (arith, v.room); stands = v.stands }))

  -- No wakeup is lost: in every run of fewer than 2^64 accesses, when `shutdown` waits, no request
  -- is in flight, and none that was the last has yet to look at the flag, the wait is over.
  pub drained_wakes :
      (run : List Action) (t : Ticket)
      → length run < 2 ^ 64
      → let d = follow tokio run (start tokio) in
        d.waiter ≡ waiting t → d.in_flight ≡ 0 → d.leaving ≡ 0 → is_ready d.cell t ≡ true
  unfolding start
  drained_wakes run t small w none_flying none_leaving =
      let d = follow tokio run (start tokio) in
      let v =
        follow-Inv 0 run (start tokio)
          (record { counted = refl; room = omega arith; stands = tt }) in
      let s : Stands (waiting t) d = subst (λ w. Stands w d) w v.stands in
      elim s.2 [ inl ready ↦ ready | inr busy ↦ absurd (omega (arith, v.counted)) ]

  -- Once the flag is set, no access lets a new request in: those checked and in flight get no more.
  act-no_new_work :
      (a : Action) (d : Drain tokio)
      → d.is_shutting_down ≡ true
      → ((act tokio a d).checked + (act tokio a d).flying ≤ d.checked + d.flying)
        × ((act tokio a d).is_shutting_down ≡ true)
  unfolding act shutdown_step enter_step leave_step load_flag_step
  act-no_new_work a d h = (ground arith, ground arith)

  -- A request that has passed its check and has not counted itself in is missed: `shutdown` finds
  -- nothing in flight and returns `Ok`, and then the request goes out.
  pub shutdown_misses_checked :
      (d : Drain tokio) (k : ℕ)
      → d.waiter ≡ before
      → d.in_flight ≡ 0
      → d.checked ≡ suc k
      → let e = follow tokio (store_flag ∷ first_load ∷ enter ∷ []) d in
        (e.waiter ≡ returned (ok tt)) × (e.in_flight ≡ 1) × (e.flying ≡ d.flying + 1)
  unfolding follow act shutdown_step enter_step
  shutdown_misses_checked d k w z c = (ground arith, ground arith, ground arith)
