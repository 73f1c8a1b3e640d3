-- ===== src/Pool/Closing/Once.antt =====
-- src/hive/shared.rs: what becomes of the tasks of a hive whose last handle is dropped.
use procpool.Common.{ℕ, ◌+◌, ◌≡◌, refl, ap, ◌∙◌, Bool, ok, done, true, false, arith}
use procpool.Pool.{is_requeued}
use procpool.Pool.Closing.{
  Closing, Step, Closes, drains_task, tasks_drained, drains_retry, retries_drained, pops, receives,
  times_out, hangs_up, sees_flag, exits, activates, refuses, settles, unwinds, retry_panics,
  finishes, finish_panics, unwound, starts, goes_on,
}
use procpool.Pool.Closing.Leaves.{
  Leaves, after, hung_up-same, exit_thread-Leaves, activate-Leaves, finish_task-Leaves,
}
use procpool.Pool.Conservation.{occurs_tasks-middle, settled_once}
use procpool.Pool.Occurs.{
  occurs, one, occurs_tasks, occurs_retries, in_queues, pop_retry-queues, activate-queues,
  settle-queues,
}
use procpool.Shared.{Task, Shared}
use procpool.Shared.Queue.{receive, ends}
use procpool.Shared.Tasks.{send_or_store_task}
use procpool.Shared.Teardown.Drain.{send_or_store_task-Drained}

module _ {ℓ} {I O E Q : Type ℓ} where
  -- Sending or storing a task leaves the queues.
  send_or_store_task-queues :
      (k : ℕ) (x : Task I) (s t : Shared I O E Q)
      → send_or_store_task x s ≡ done tt t
      → in_queues k t ≡ in_queues k s
  send_or_store_task-queues k x s t e =
      let (u, e', d, (rx, rq, n)) = send_or_store_task-Drained x s in
      let same : u ≡ t = ground arith in ground (arith, rx, rq, same)

  -- How often an index occurs among all the tasks, wherever they are.
  abbrev pub everywhere : ℕ → Closing I O E Q → ℕ
  everywhere k s =
      in_queues k s.shared
      + occurs_tasks k s.received
      + occurs_tasks k s.running
      + occurs k s.delivered
      + occurs k s.lost
      + occurs k s.refused

  Leaves-queues : (k : ℕ) (s t : Shared I O E Q) → Leaves s t → in_queues k t ≡ in_queues k s
  Leaves-queues k s t same =
      omega (arith, ap (occurs_tasks k) same.tasks, ap (occurs_retries k) same.retries)

  received_one :
      (k : ℕ) (hung_up : Bool) (x : Task I) (s t : Shared I O E Q)
      → receive hung_up s ≡ done (ends (ok x)) t
      → in_queues k t + one k x.ctx.index ≡ in_queues k s
  unfolding receive
  received_one k hung_up x s t e = ground arith

  Step-everywhere : (k : ℕ) {s t : Closing I O E Q} → Step s t → everywhere k t ≡ everywhere k s
  Step-everywhere k {s} (drains_task {t} x xs p q e) = omega (
    arith,
    send_or_store_task-queues k x (record s.shared { task_rx = xs }) t e,
    ap (occurs_tasks k) q,
  )
  Step-everywhere k {s} (tasks_drained p q) = refl
  Step-everywhere k {s} (drains_retry {t} d q p rq e) = omega (
    arith,
    send_or_store_task-queues k d.value (record s.shared { retry_queue = q }) t e,
    ap (occurs_retries k) rq,
  )
  Step-everywhere k {s} (retries_drained p q) = refl
  Step-everywhere k {s} (pops {t} now x h e) = omega (arith, pop_retry-queues k now x s.shared t e)
  Step-everywhere k {s} (receives {t} hung_up x h e) =
      omega (arith, received_one k hung_up x s.shared t e)
  Step-everywhere k {s} (times_out h) = refl
  Step-everywhere k {s} (hangs_up {t} h e) =
      omega (arith, ap (in_queues k) (hung_up-same s.shared t e))
  Step-everywhere k {s} (sees_flag h awake) = refl
  Step-everywhere k {s} (exits h) =
      omega (arith, Leaves-queues k s.shared _ (exit_thread-Leaves s.shared))
  Step-everywhere k {s} (activates {t} pre post x split e) =
      omega
        (arith, activate-queues k x s.shared t e, occurs_tasks-middle k s.received pre post x split)
  Step-everywhere k {s} (refuses {t} pre post x error split e) = omega (
    arith,
    Leaves-queues k s.shared t (after (activate-Leaves x s.shared) e),
    occurs_tasks-middle k s.received pre post x split,
  )
  Step-everywhere k {s} (settles {t} now pre post x result split e) =
      let again = is_requeued x.ctx result s.shared in
      omega (
        arith,
        settle-queues k now x.ctx x.outcome_tx result s.shared t e,
        occurs_tasks-middle k s.running pre post x split,
        settled_once k again x.ctx.index s.delivered,
      )
  Step-everywhere k {s} (unwinds pre post x split) =
      omega (arith, occurs_tasks-middle k s.running pre post x split)
  Step-everywhere k {s} (retry_panics pre post x input error split again over) =
      omega (arith, occurs_tasks-middle k s.running pre post x split)
  Step-everywhere k {s} (finishes {t} h e) =
      omega (arith, Leaves-queues k s.shared t (after (finish_task-Leaves false s.shared) e))
  Step-everywhere k {s} (finish_panics {t} h e) =
      omega (arith, Leaves-queues k s.shared t (after (finish_task-Leaves false s.shared) e))
  Step-everywhere k {s} (unwound {t} h e) =
      omega (arith, Leaves-queues k s.shared t (after (finish_task-Leaves true s.shared) e))

  pub Closes-everywhere :
      (k : ℕ) {first s : Closing I O E Q} → Closes first s → everywhere k s ≡ everywhere k first
  Closes-everywhere k starts = refl
  Closes-everywhere k (goes_on before step) = Step-everywhere k step ∙ Closes-everywhere k before
