-- ===== src/Resilient/Tests.antt =====
-- The client's theorems at concrete runs.
use rust_basics.Prelude.{◌*◌, ◌^◌, ◌≤◌, ◌≡◌, refl, ◌↔◌, true, false, List, [], ◌∷◌, ok, arith}
use rust_basics.Resilient.Samples.{
  fractions, fractions-IsExact, codes, codes-IsHttp, wakeups, half, half-le, closed_cells,
  half_open_cells, limits, client, request, attempt,
}
use rust_basics.Resilient.Breaker.{state_of, open_, half_open, may_probe}
use rust_basics.Resilient.Breaker.Window.{success, failure, feed, Trips, feed-opens}
use rust_basics.Resilient.Breaker.Spec as Abstract
use rust_basics.Resilient.Breaker.Spec.{run-Shows}
use rust_basics.Resilient.Breaker.Atomic.{answered, finished}
use rust_basics.Resilient.Breaker.Atomic.Interleaving as Race
use rust_basics.Resilient.Breaker.Atomic.Interleaving.{
  System, set_pc, begin, start_at, move, here, moves, calls, Inv, Reach-start-Inv, follow,
  reopening, reopening_skips_timeout,
}
use rust_basics.Resilient.Backoff.{full_jitter, full_jitter_bounds}
use rust_basics.Resilient.Request.{fatal, responded, execute}
use rust_basics.Resilient.Client.{policy_for}
use rust_basics.Resilient.Client.Retry.{send_with_retry}
use rust_basics.Resilient.Client.Attempts.{Ends, send_with_retry-Ends}
use rust_basics.Resilient.Client.Outcome.{Told, classify_reply}
use rust_basics.Resilient.Shutdown as Shutdown
use rust_basics.Resilient.Shutdown.{
  Drain, before, returned, check, enter, leave, load_flag, store_flag, first_load, register,
  second_load,
}
use rust_basics.Resilient.Shutdown.Drained.{drained_wakes, shutdown_misses_checked}

-- One success and one failure in a window of two requests trip a threshold of one half.
feed-opens_example :
    (state_of (feed fractions limits closed_cells ((success, 1) ∷ (failure, 2) ∷ [])) ≡ open_)
    ↔ Trips fractions limits 0 0 ((success, 1) ∷ (failure, 2) ∷ [])
feed-opens_example =
    feed-opens fractions limits closed_cells ((success, 1) ∷ (failure, 2) ∷ []) refl (omega arith)
      (omega arith) (omega arith, (omega arith, tt))

abbrev asking : System
asking = record (start_at 5) { pc = set_pc (start_at 5).pc 0 (begin Race.ask) }

Reach-start-Inv_example : Inv fractions limits (move fractions limits 0 7 asking)
unfolding start_at
Reach-start-Inv_example =
    Reach-start-Inv fractions limits 5 (move fractions limits 0 7 asking)
      (moves (calls here 0 Race.ask refl) 0 7)

reopening_skips_timeout_example :
    let s =
      follow fractions limits
        ((0, 40000) ∷ (0, 40000) ∷ (1, 40000) ∷ (1, 40000) ∷ (1, 40000) ∷ (0, 40000) ∷ [])
        (reopening fractions limits half_open_cells) in
    (s.opened ≡ 1)
    × (s.pc 1 ≡ answered true)
    × (s.pc 0 ≡ finished)
    × (s.cells.opened_at_ms ≡ 40000)
    × (state_of s.cells ≡ half_open)
unfolding may_probe
reopening_skips_timeout_example =
    reopening_skips_timeout fractions limits half_open_cells 40000 refl refl

abbrev opening_run : List Abstract.Op
opening_run = Abstract.ask 1 ∷ Abstract.failed 2 3 ∷ Abstract.failed 4 5 ∷ Abstract.ask 6 ∷ []

run-Shows_example :
    ((Abstract.run fractions limits opening_run closed_cells).1
      ≡ (Abstract.replay fractions limits opening_run (Abstract.closed_since 0 [])).1)
    × Abstract.Shows
        (Abstract.run fractions limits opening_run closed_cells).0
        (Abstract.replay fractions limits opening_run (Abstract.closed_since 0 [])).0
run-Shows_example =
    run-Shows fractions limits opening_run closed_cells (Abstract.closed_since 0 [])
      (omega arith, (omega arith, (omega arith, (omega arith, tt)))) (omega arith)
      (refl, refl, refl, refl)

full_jitter_bounds_example :
    (full_jitter fractions half 3 100 1000 ≤ 1000)
    × (full_jitter fractions half 3 100 1000 ≤ 100 * 2 ^ 3)
    × (full_jitter fractions half 0 100 1000 ≡ 0)
    × (full_jitter fractions half 3 100 0 ≡ 0)
full_jitter_bounds_example =
    full_jitter_bounds fractions fractions-IsExact half half-le 3 100 1000 (omega arith)
      (omega arith) (omega arith) (omega arith)

send_with_retry-Ends_example :
    Ends codes
      (policy_for codes (client 5) "svc" 0).1.config
      0
      (client 5)
      (send_with_retry codes half request attempt (client 5) 0)
unfolding policy_for
send_with_retry-Ends_example =
    send_with_retry-Ends codes fractions-IsExact half half-le request attempt (client 5) 0
      (omega arith)

classify_reply_example :
    Told codes limits closed_cells "svc" "GET" 5000 3 4
      (execute (responded 404))
      (responded 404)
      (fatal "404 client error from svc")
classify_reply_example =
    classify_reply codes limits closed_cells "svc" "GET" 5000 3 4 (responded 404)
      (fatal "404 client error from svc") codes-IsHttp

-- A request is counted in, `shutdown` waits for it, and it counts itself out.
abbrev drained_run : List Shutdown.Action
drained_run =
    check ∷ enter ∷ store_flag ∷ first_load ∷ register ∷ second_load ∷ leave ∷ load_flag ∷ []

drained_wakes_example :
    wakeups.is_ready (Drain.cell (Shutdown.follow wakeups drained_run (Shutdown.start wakeups))) 0
    ≡ true
unfolding Shutdown.follow Shutdown.start Shutdown.act
drained_wakes_example = drained_wakes wakeups drained_run 0 (omega arith) refl refl refl

abbrev missing : Drain wakeups
missing = record {
  is_shutting_down = false;
  in_flight = 0;
  cell = 0;
  waiter = before;
  checked = 1;
  flying = 0;
  leaving = 0;
}

shutdown_misses_checked_example :
    let e = Shutdown.follow wakeups (store_flag ∷ first_load ∷ enter ∷ []) missing in
    (e.waiter ≡ returned (ok tt)) × (e.in_flight ≡ 1) × (e.flying ≡ 1)
shutdown_misses_checked_example = shutdown_misses_checked wakeups missing 0 refl refl refl
