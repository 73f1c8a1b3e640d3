-- ===== src/Pool/Closing/Ends.antt =====
-- src/hive/hive.rs, `drop`, and src/hive/shared.rs, `poison`: how many steps are left to a hive that is dropped.
use procpool.Common.{
  ℕ, suc, ◌+◌, ◌*◌, ◌<◌, ◌≤◌, ◌≡◌, ap, length, true, false, done, arith, inl, inr,
}
use procpool.Bee.{WorkerResult, inc_attempt}
use procpool.Delay.{push}
use procpool.Hive.Thread.{settle}
use procpool.Outcome.{from_worker_result}
use procpool.Pool.Closing.{
  Closing, Phase, Step, Closes, tasks, retries, nothing, drains_task, tasks_drained, drains_retry,
  retries_drained, pops, receives, times_out, hangs_up, sees_flag, exits, activates, refuses,
  settles, unwinds, retry_panics, finishes, finish_panics, unwound, starts, goes_on,
}
use procpool.Pool.Counts.{
  waiting, retry_delay-cases, send_or_store_outcome-waiting, pop_retry-waiting, receive-waiting,
}
use procpool.Pool.Closing.Leaves.{
  Leaves, after, hung_up-same, exit_thread-Leaves, activate-Leaves, finish_task-Leaves,
}
use procpool.Pool.Invariant.{length-middle}
use procpool.Pool.Settle.{settle-cases}
use procpool.Shared.{Task, Shared}
use procpool.Shared.Retry.{queue_retry, push_retry, update_next_retry}
use procpool.Shared.Tasks.{send_or_store_task}
use procpool.Shared.Teardown.Drain.{send_or_store_task-Drained}

abbrev pub phases_left : Phase → ℕ
phases_left tasks = 2
phases_left retries = 1
phases_left nothing = 0

module _ {ℓ} {I O E Q : Type ℓ} where
  -- A bound on the steps that are left. A thread that looks for a task can take one, make it active,
  -- settle it, which may put it into the retry queue, from where it is drained, finish it, look at the
  -- flag, and leave.
  abbrev pub steps_left : Closing I O E Q → ℕ
  steps_left s =
      7 * s.looking
      + 6 * length s.received
      + 5 * length s.running
      + 3 * s.finishing
      + 2 * s.returning
      + s.leaving
      + s.unwinding
      + waiting s.shared
      + phases_left s.phase

  settle-waiting :
      (now : ℕ) (x : Task I) (result : WorkerResult I O E) (s t : Shared I O E Q)
      → settle now x.ctx x.outcome_tx result s ≡ done tt t
      → waiting t ≤ waiting s + 1
  unfolding queue_retry push_retry update_next_retry push
  settle-waiting now x result s t e = elim (settle-cases now x.ctx x.outcome_tx result s t e) [
    | inl (last, sent) ↦ omega (
      arith,
      (send_or_store_outcome-waiting (from_worker_result result x.ctx.index) x.outcome_tx s t
          sent).1,
    )
    | inr (again, input, queued) ↦ ground (arith, retry_delay-cases (inc_attempt x.ctx) s)
  ]

  send_or_store_task-waiting :
      (x : Task I) (s t : Shared I O E Q)
      → send_or_store_task x s ≡ done tt t
      → waiting t ≡ waiting s
  send_or_store_task-waiting x s t e =
      let (u, e', d, (rx, rq, n)) = send_or_store_task-Drained x s in
      let same : u ≡ t = ground arith in ground (arith, rx, rq, same)

  Leaves-waiting : (s t : Shared I O E Q) → Leaves s t → waiting t ≡ waiting s
  Leaves-waiting s t same = omega (arith, ap length same.tasks, ap length same.retries)

  Step-steps_left : {s t : Closing I O E Q} → Step s t → steps_left t < steps_left s
  Step-steps_left {s} (drains_task {t} x xs p q e) =
      omega
        (arith, ap length q, send_or_store_task-waiting x (record s.shared { task_rx = xs }) t e)
  Step-steps_left {s} (tasks_drained p q) = omega (arith, ap phases_left p)
  Step-steps_left {s} (drains_retry {t} d q p rq e) = omega (
    arith,
    ap length rq,
    send_or_store_task-waiting d.value (record s.shared { retry_queue = q }) t e,
  )
  Step-steps_left {s} (retries_drained p q) = omega (arith, ap phases_left p)
  Step-steps_left {s} (pops {t} now x busy e) =
      omega (arith, (pop_retry-waiting now x s.shared t e).1)
  Step-steps_left {s} (receives {t} hung_up x busy e) =
      omega (arith, (receive-waiting hung_up x s.shared t e).1)
  Step-steps_left {s} (times_out busy) = omega arith
  Step-steps_left {s} (hangs_up {t} busy e) = omega (arith, ap waiting (hung_up-same s.shared t e))
  Step-steps_left {s} (sees_flag busy awake) = omega arith
  Step-steps_left {s} (exits busy) =
      omega (arith, Leaves-waiting s.shared _ (exit_thread-Leaves s.shared))
  Step-steps_left {s} (activates {t} pre post x split e) = omega (
    arith,
    ap length split,
    length-middle pre post x,
    Leaves-waiting s.shared t (after (activate-Leaves x s.shared) e),
  )
  Step-steps_left {s} (refuses {t} pre post x error split e) = omega (
    arith,
    ap length split,
    length-middle pre post x,
    Leaves-waiting s.shared t (after (activate-Leaves x s.shared) e),
  )
  Step-steps_left {s} (settles {t} now pre post x result split e) =
      omega
        (arith, ap length split, length-middle pre post x, settle-waiting now x result s.shared t e)
  Step-steps_left {s} (unwinds pre post x split) =
      omega (arith, ap length split, length-middle pre post x)
  Step-steps_left {s} (retry_panics pre post x input error split again over) =
      omega (arith, ap length split, length-middle pre post x)
  Step-steps_left {s} (finishes {t} busy e) =
      omega (arith, Leaves-waiting s.shared t (after (finish_task-Leaves false s.shared) e))
  Step-steps_left {s} (finish_panics {t} busy e) =
      omega (arith, Leaves-waiting s.shared t (after (finish_task-Leaves false s.shared) e))
  Step-steps_left {s} (unwound {t} busy e) =
      omega (arith, Leaves-waiting s.shared t (after (finish_task-Leaves true s.shared) e))

  abbrev pub steps_of : {s t : Closing I O E Q} → Closes s t → ℕ
  steps_of starts = 0
  steps_of (goes_on before step) = suc (steps_of before)

  -- After the last handle of a hive is dropped only finitely many steps are left, whatever the worker
  -- threads do with the tasks that they have or still take, and in whatever order, panics of
  -- `finish_task` included: the steps of the thread that drains and of the worker threads are at most
  -- seven for each thread that looks for a task, six for each task that was taken, five for each that
  -- runs, three for each that is to be finished, two for each thread at the start of its loop, one for
  -- each that leaves, that unwinds, and that is in a queue, and two for the two queues. The threads may
  -- stop before that: those at the start of the loop of a suspended hive wait at its gate.
  pub Closes-ends :
      (s t : Closing I O E Q) (closing : Closes s t)
      → steps_of closing + steps_left t ≤ steps_left s
  Closes-ends s t starts = omega arith
  Closes-ends s t (goes_on before step) =
      omega (arith, Closes-ends s _ before, Step-steps_left step)
