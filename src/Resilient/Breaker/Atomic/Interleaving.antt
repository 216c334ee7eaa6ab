-- ===== src/Resilient/Breaker/Atomic/Interleaving.antt =====
-- Threads that share one breaker: what no interleaving breaks, and one that breaks the timeout.
use mathlib.Core.Logic.{ite}
use native.Mathlib.Decide.{ℕ_discrete}
use rust_basics.Prelude.{
  ℕ, ◌+◌, ◌≤◌, ◌≡◌, Bool, true, false, List, [], ◌∷◌, arith, ◌==◌, if◌then◌else◌,
}
use rust_basics.Resilient.Float.{Float}
use rust_basics.Resilient.Breaker.{
  Cells, Limits, open_, half_open, state_of, to_u8, may_probe, new_cells,
}
use rust_basics.Resilient.Breaker.Atomic.{
  Pc, Outcome, idle, asks, asks_cas, answered, records, failure, opens, finished, access,
}

-- The shared cells, where each thread stands, how often a thread stored `Open`, and how often a
-- thread was told by its compare-and-exchange that it has the probe.
pub record System : Type 0 where
  pub cells : Cells
  pub pc : ℕ → Pc
  pub opened : ℕ
  pub probes : ℕ

abbrev pub set_pc : (ℕ → Pc) → ℕ → Pc → ℕ → Pc
set_pc pc i p j = ite (ℕ_discrete i j) p (pc j)

abbrev opened_by : Pc → ℕ
opened_by opens = 1
opened_by _ = 0

abbrev probed_by : Pc → Pc → ℕ
probed_by asks_cas (answered true) = 1
probed_by _ _ = 0

-- The operations that a thread can call, and whether it is between two calls.
pub data Call : Type 0 where
  ask : Call
  record_ : Outcome → Call

abbrev pub begin : Call → Pc
begin ask = asks
begin (record_ o) = records o

abbrev pub is_between : Pc → Bool
is_between idle = true
is_between (answered _) = true
is_between finished = true
is_between _ = false

unfoldable pub start_at : ℕ → System
start_at now = record { cells = new_cells now; pc = λ _. idle; opened = 0; probes = 0 }

module _ (fl : Float) (l : Limits (Float.F64 fl)) where
  -- Thread `i` makes its next access at the time `now`.
  pub move : ℕ → ℕ → System → System
  move i now s =
      let (cells', pc') = access fl l now (s.pc i) s.cells in
      record {
        cells = cells';
        pc = set_pc s.pc i pc';
        opened = s.opened + opened_by (s.pc i);
        probes = s.probes + probed_by (s.pc i) pc';
      }

  -- Any thread moves at any time, and calls an operation when it is between two.
  pub data Reach (start : System) : System → Type 0 where
    here : Reach start start
    moves : {s : System} → Reach start s → (i now : ℕ) → Reach start (move i now s)
    calls :
        {s : System}
        → Reach start s
        → (i : ℕ) (op : Call) → is_between (s.pc i) ≡ true
        → Reach start (record s { pc = set_pc s.pc i (begin op) })

  abbrev pub open_count : Cells → ℕ
  open_count c = if c.state == to_u8 open_ then 1 else 0

  pub record Inv (s : System) : Type 0 where
    pub known : s.cells.state ≤ 2
    pub paired : s.probes + open_count s.cells ≤ s.opened

  access-Inv :
      (p : Pc) (c : Cells) (now opened probes : ℕ)
      → c.state ≤ 2
      → probes + open_count c ≤ opened
      → let (c', p') = access fl l now p c in
        (c'.state ≤ 2) × (probes + probed_by p p' + open_count c' ≤ opened + opened_by p)
  unfolding access
  access-Inv p c now opened probes h k = ground arith

  Reach-Inv : {start s : System} → Inv start → Reach start s → Inv s
  unfolding move
  Reach-Inv v here = v
  Reach-Inv v (moves {s = s} r i now) =
      let w = Reach-Inv v r in
      let (known, paired) = access-Inv (s.pc i) s.cells now s.opened s.probes w.known w.paired in
      record { known = known; paired = paired }
  Reach-Inv v (calls r i op e) =
      let w = Reach-Inv v r in record { known = w.known; paired = w.paired }

  -- However the threads interleave, the state byte is that of one of the three states, and the
  -- probes that were handed out, with one more while the circuit is open, are no more than the
  -- times that the circuit was opened: one opening is never won by two threads.
  pub Reach-start-Inv : (now : ℕ) (s : System) → Reach (start_at now) s → Inv s
  unfolding start_at new_cells
  Reach-start-Inv now s r = Reach-Inv (record { known = omega arith; paired = omega arith }) r

  -- The threads and the times of a schedule's accesses, one after the other.
  pub follow : List (ℕ × ℕ) → System → System
  follow [] s = s
  follow ((i, now) ∷ rest) s = follow rest (move i now s)

  -- Thread 0 reports a failed probe, and thread 1 asks while thread 0 stands between its two stores.
  abbrev pub reopening : Cells → System
  reopening c = record {
    cells = c;
    pc = set_pc (set_pc (λ _. idle) 1 asks) 0 (records failure);
    opened = 0;
    probes = 0;
  }

  -- The circuit is half open since an earlier opening at a known time, whose timeout has passed.
  -- Then thread 0 can open it anew at `now`, and thread 1 is let through at the same `now`: between
  -- the two stores of `open_circuit` the old `opened_at_ms` still counts. The circuit ends half
  -- open, and the new timeout has kept nobody out.
  pub reopening_skips_timeout :
      (c : Cells) (now : ℕ)
      → state_of c ≡ half_open
      → may_probe fl l c.opened_at_ms now ≡ true
      → let s =
          follow
            ((0, now) ∷ (0, now) ∷ (1, now) ∷ (1, now) ∷ (1, now) ∷ (0, now) ∷ [])
            (reopening c) in
        (s.opened ≡ 1)
        × (s.pc 1 ≡ answered true)
        × (s.pc 0 ≡ finished)
        × (s.cells.opened_at_ms ≡ now)
        × (state_of s.cells ≡ half_open)
  unfolding follow move access ℕ_discrete
  reopening_skips_timeout c now h k =
      (ground arith, ground arith, ground arith, ground arith, ground arith)
