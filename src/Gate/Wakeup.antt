-- ===== src/Gate/Wakeup.antt =====
-- src/hive/gate.rs: the threads that sleep at a gate.
use procpool.Common.{ℕ, ◌<◌, ◌≡◌, some, Bool, true, false, arith}
use procpool.Gate.{
  Waiter, locked, checked, blocked, leaving, Gate, waits, Step, checks, loads, locks, tests_on,
  tests_out, sleeps, wakes_up, relocks, leaves, notifies, rises, falls, fresh, Reach, start, later,
}

-- Whether a thread is at a place where it has the lock.
abbrev has_lock : Waiter → Bool
has_lock (locked _) = true
has_lock (checked _) = true
has_lock (leaving _) = true
has_lock _ = false

-- What holds of a thread with a phase, and of another thread.
record InvAt (g : Gate) (j k p : ℕ) : Type 0 where
  pub held : has_lock (g.waiters j) ≡ true → g.holder ≡ some j
  pub checked_phase : g.waiters j ≡ checked p → p ≡ g.phase
  pub checked_told : g.waiters j ≡ checked p → g.condition ≡ false → 0 < g.owed
  pub leaving_told : g.waiters k ≡ leaving g.phase → g.waiters j ≡ blocked p → 0 < g.owed
  pub blocked_told : g.waiters j ≡ blocked p → waits p g ≡ false → 0 < g.owed

abbrev Inv : Gate → Type 0
Inv g = (j k p : ℕ) → InvAt g j k p

module _ {phased : Bool} where
  Step-Inv : {g h : Gate} → Inv g → Step phased g h → Inv h
  Step-Inv v (checks i at on) j k q = ground (arith, v j k q)
  Step-Inv v (loads i at) j k q = ground (arith, v j k q)
  Step-Inv v (locks i p at free) j k q = ground (arith, v j k q)
  Step-Inv v (tests_on i p at on) j k q = ground (arith, v i j p, v j k q)
  Step-Inv v (tests_out i p at out) j k q = ground (arith, v i j p, v j k q)
  Step-Inv v (sleeps i p at) j k q = ground (arith, v i j p, v j k q, v k j q)
  Step-Inv v (wakes_up i p at) j k q = ground (arith, v j k q)
  Step-Inv v (relocks i p at free) j k q = ground (arith, v j k q)
  Step-Inv v (leaves i p at) j k q = ground (arith, v i j p, v j k q, v k j q, v j i q)
  Step-Inv v (notifies free) j k q = ground (arith, v j k q, v k j q)
  Step-Inv v rises j k q = ground (arith, v j k q)
  Step-Inv v falls j k q = ground (arith, v j k q)

  Reach-Inv : {condition : Bool} {g : Gate} → Reach phased (fresh condition) g → Inv g
  Reach-Inv start j k p = ground arith
  Reach-Inv (later r step) j k p = Step-Inv (Reach-Inv r) step j k p

  -- No wake-up is lost: in every state that the steps of a `Gate` or of a `PhasedGate` reach, if a
  -- thread sleeps at the gate while the condition is false, or while another phase than the one it
  -- has loaded is on, then a call of `notify_all` is still to come.
  pub sleeper-Reach :
      {condition : Bool} {g : Gate}
      → Reach phased (fresh condition) g
      → (i p : ℕ) → g.waiters i ≡ blocked p
      → waits p g ≡ false
      → 0 < g.owed
  sleeper-Reach r i p asleep out = (Reach-Inv r i i p).blocked_told asleep out
