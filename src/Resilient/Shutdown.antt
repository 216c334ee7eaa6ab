-- ===== src/Resilient/Shutdown.antt =====
-- crates/resilient-client/src/client.rs: `shutdown` against the requests in flight, access by
-- access: the checks and counters of `send`, `finish_in_flight` and `shutdown` interleave. Requests
-- are told apart by where they stand only, so the state counts them.
pub mod Drained
use rust_basics.Prelude.{
  ℕ, zero, suc, ◌+◌, ◌-◌, ◌%◌, ◌^◌, ◌≡◌, Bool, true, false, List, [], ◌∷◌, ◌==◌, if◌then◌else◌,
  Result, ok, err,
}

-- `tokio::sync::Notify`, which is no code of the repository: `notified` gives a ticket, and
-- `notify_waiters` makes every ticket ready that was given before.
pub record Notify : Type 1 where
  pub Cell : Type 0
  pub Ticket : Type 0
  pub fresh : Cell
  pub notified : Cell → Cell × Ticket
  pub notify_waiters : Cell → Cell
  pub is_ready : Cell → Ticket → Bool
  pub Registered : Cell → Ticket → Type 0
  pub notified-Registered : (c : Cell) → Registered (notified c).0 (notified c).1
  pub notify_waiters-Registered :
      (c : Cell) (t : Ticket) → Registered c t → Registered (notify_waiters c) t
  pub notify_waiters-is_ready :
      (c : Cell) (t : Ticket) → Registered c t → is_ready (notify_waiters c) t ≡ true

-- Where `shutdown` stands. It returns the count of its `Timeout` error, if it times out.
pub data Waiter (T : Type 0) : Type 0 where
  before flagged counting : Waiter T
  registered waiting : T → Waiter T
  expired : Waiter T
  returned : Result ℕ (Unit {0}) → Waiter T

-- The accesses of the requests, and those of `shutdown`.
pub data Action : Type 0 where
  -- a request loads `is_shutting_down`; breaker or limiter refuse it; it counts itself in
  check bail enter : Action
  -- a request counts itself out, and loads `is_shutting_down` if it was the last
  leave load_flag : Action
  store_flag first_load register second_load wake expire last_load : Action

module _ (tokio : Notify) where
  open tokio use {Cell, Ticket, fresh, notified, notify_waiters, is_ready}

  pub record Drain : Type 0 where
    pub is_shutting_down : Bool
    pub in_flight : ℕ  -- usize
    pub cell : Cell
    pub waiter : Waiter Ticket
    -- the requests between their check and their count, those counted in, and those that were the
    -- last to count themselves out
    pub checked : ℕ
    pub flying : ℕ
    pub leaving : ℕ

  unfoldable pub start : Drain
  start = record {
    is_shutting_down = false;
    in_flight = 0;
    cell = fresh;
    waiter = before;
    checked = 0;
    flying = 0;
    leaving = 0;
  }

  -- The accesses of `shutdown`, by where it stands.
  shutdown_step : Waiter Ticket → Action → Drain → Drain
  shutdown_step before store_flag d = record d { is_shutting_down = true; waiter = flagged }
  shutdown_step flagged first_load d = record d {
    waiter = if d.in_flight == 0 then returned (ok tt) else counting;
  }
  shutdown_step counting register d =
      let (cell, ticket) = notified d.cell in record d { cell = cell; waiter = registered ticket }
  shutdown_step (registered t) second_load d = record d {
    waiter = if d.in_flight == 0 then returned (ok tt) else waiting t;
  }
  shutdown_step (waiting t) wake d =
      if is_ready d.cell t then record d { waiter = returned (ok tt) } else d
  shutdown_step (waiting t) expire d = record d { waiter = expired }
  shutdown_step expired last_load d = record d { waiter = returned (err d.in_flight) }
  shutdown_step _ _ d = d

  enter_step : ℕ → Drain → Drain
  enter_step zero d = d
  enter_step (suc k) d = record d {
    checked = k;
    flying = d.flying + 1;
    in_flight = (d.in_flight + 1) % 2 ^ 64;
  }

  leave_step : ℕ → Drain → Drain
  leave_step zero d = d
  leave_step (suc k) d = record d {
    flying = k;
    in_flight = (d.in_flight + 2 ^ 64 - 1) % 2 ^ 64;
    leaving = if d.in_flight == 1 then d.leaving + 1 else d.leaving;
  }

  load_flag_step : ℕ → Drain → Drain
  load_flag_step zero d = d
  load_flag_step (suc k) d = record d {
    leaving = k;
    cell = if d.is_shutting_down then notify_waiters d.cell else d.cell;
  }

  -- One access; one that nobody is ready to make changes nothing.
  unfoldable pub act : Action → Drain → Drain
  unfolding shutdown_step enter_step leave_step load_flag_step
  act check d = if d.is_shutting_down then d else record d { checked = d.checked + 1 }
  act bail d = record d { checked = d.checked - 1 }
  act enter d = enter_step d.checked d
  act leave d = leave_step d.flying d
  act load_flag d = load_flag_step d.leaving d
  act a d = shutdown_step d.waiter a d

  unfoldable pub follow : List Action → Drain → Drain
  follow [] d = d
  follow (a ∷ rest) d = follow rest (act a d)
