-- ===== src/Gate.antt =====
-- src/hive/gate.rs: threads that wait at a `Gate` or a `PhasedGate`, as interleaved steps. A step is one
-- atomic access, or what is done with the lock at once. `phased` says which gate it is: a `Gate` is one
-- whose phase stays. The condition belongs to the gate's owner, who changes it at any time; each time
-- it has become false the owner calls `notify_all` some time later.
pub mod Wakeup
use procpool.Common.{
  ℕ, suc, ◌+◌, ◌-◌, ◌%◌, ◌^◌, ◌≡◌, Option, none, some, Bool, true, false, ◌&&◌, ◌==◌, if◌then◌else◌,
}
use procpool.Shared.Tasks.{update}

-- Where a thread is in `wait_while`, with the phase that it has loaded.
pub data Waiter : Type 0 where
  outside seen : Waiter  -- not in the gate; the condition was true at the first check
  entering locked checked blocked woken leaving : ℕ → Waiter

pub record Gate : Type 0 where
  pub condition : Bool
  pub phase : ℕ
  pub holder : Option ℕ  -- the thread with the lock
  pub waiters : ℕ → Waiter
  pub owed : ℕ  -- calls of `notify_all` that are still to come

-- The test of the loop, for a thread that has loaded `p`.
abbrev pub waits : ℕ → Gate → Bool
waits p g = (p == g.phase) && g.condition

-- `compare_exchange(phase, phase.wrapping_add(1))`
abbrev pub next_phase : Bool → ℕ → Gate → ℕ
next_phase phased p g = if phased && (p == g.phase) then (p + 1) % 2 ^ 64 else g.phase

abbrev pub wake : Waiter → Waiter
wake (blocked p) = woken p
wake w = w

abbrev pub move : ℕ → Waiter → Gate → Gate
move i w g = record g { waiters = update g.waiters i w }

pub data Step (phased : Bool) (g : Gate) : Gate → Type 0 where
  checks : (i : ℕ) → g.waiters i ≡ outside → g.condition ≡ true → Step phased g (move i seen g)
  loads : (i : ℕ) → g.waiters i ≡ seen → Step phased g (move i (entering g.phase) g)
  locks :
      (i p : ℕ)
      → g.waiters i ≡ entering p
      → g.holder ≡ none
      → Step phased g (record (move i (locked p) g) { holder = some i })
  tests_on :
      (i p : ℕ) → g.waiters i ≡ locked p → waits p g ≡ true → Step phased g (move i (checked p) g)
  tests_out :
      (i p : ℕ) → g.waiters i ≡ locked p → waits p g ≡ false → Step phased g (move i (leaving p) g)
  sleeps :
      (i p : ℕ)
      → g.waiters i ≡ checked p
      → Step phased g (record (move i (blocked p) g) { holder = none })
  wakes_up : (i p : ℕ) → g.waiters i ≡ blocked p → Step phased g (move i (woken p) g)
  relocks :
      (i p : ℕ)
      → g.waiters i ≡ woken p
      → g.holder ≡ none
      → Step phased g (record (move i (locked p) g) { holder = some i })
  leaves :
      (i p : ℕ)
      → g.waiters i ≡ leaving p
      → Step phased g (record (move i outside g) { holder = none; phase = next_phase phased p g })
  notifies :
      g.holder ≡ none
      → Step phased g (record g { waiters = λ i. wake (g.waiters i); owed = g.owed - 1 })
  rises : Step phased g (record g { condition = true })
  falls : Step phased g (record g { condition = false; owed = g.owed + 1 })

abbrev pub fresh : Bool → Gate
fresh condition = record {
  condition = condition;
  phase = 0;
  holder = none;
  waiters = λ i. outside;
  owed = 0;
}

pub data Reach (phased : Bool) (first : Gate) : Gate → Type 0 where
  start : Reach phased first first
  later : {g h : Gate} → Reach phased first g → Step phased g h → Reach phased first h
