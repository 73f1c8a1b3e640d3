-- ===== src/Pool/Closing/Emptied.antt =====
-- src/hive/shared.rs: the queue of tasks of a hive whose last handle is dropped.
use procpool.Common.{
  ℕ, ◌≡◌, ◌∙◌, ap, true, false, List, [], some, Bool, ◌⊎◌, ok, done, arith, Option-cases, inl, inr,
}
use procpool.Bee.{WorkerResult, inc_attempt}
use procpool.Pool.Closing.{
  Closing, Phase, Step, Closes, tasks, drains_task, tasks_drained, drains_retry, retries_drained,
  pops, receives, times_out, hangs_up, sees_flag, exits, activates, refuses, settles, unwinds,
  retry_panics, finishes, finish_panics, unwound, starts, goes_on,
}
use procpool.Pool.Closing.Leaves.{
  after, hung_up-same, exit_thread-Leaves, activate-Leaves, finish_task-Leaves,
}
use procpool.Hive.Thread.{settle}
use procpool.Outcome.{from_worker_result}
use procpool.Pool.Counts.{retry_delay-cases, try_send_msg-cases}
use procpool.Pool.Frames.{pop_retry-tasks}
use procpool.Shared.{Task, Shared}
use procpool.Pool.Settle.{settle-cases}
use procpool.Shared.Retry.{queue_retry, push_retry, update_next_retry}
use procpool.Shared.Queue.{receive, ends}
use procpool.Shared.Tasks.{send_or_store_task, send_or_store_outcome, deliver, add_outcome}
use procpool.Shared.Teardown.Drain.{send_or_store_task-Drained}

module _ {ℓ} {I : Type ℓ} where
  -- The queue of tasks is empty once it was drained: nothing puts a task into it.
  abbrev pub Emptied : Phase → List (Task I) → Type ℓ
  Emptied phase task_rx = (phase ≡ tasks) ⊎ (task_rx ≡ [])

  stays_empty :
      {phase : Phase} {xs ys : List (Task I)} → Emptied phase xs → ys ≡ xs → Emptied phase ys
  stays_empty (inl p) e = inl p
  stays_empty (inr p) e = inr (e ∙ p)

module _ {ℓ} {I O E Q : Type ℓ} where
  pub settle-task_rx :
      (now : ℕ) (x : Task I) (result : WorkerResult I O E) (s t : Shared I O E Q)
      → settle now x.ctx x.outcome_tx result s ≡ done tt t
      → t.task_rx ≡ s.task_rx
  unfolding send_or_store_outcome deliver add_outcome queue_retry push_retry update_next_retry
  settle-task_rx now x result s t e = elim (settle-cases now x.ctx x.outcome_tx result s t e) [
    | inl (last, sent) ↦ elim (Option-cases x.outcome_tx) [
      | inl no_tx ↦ ground arith
      | inr (c, some_tx) ↦
          ground (arith, try_send_msg-cases c (from_worker_result result x.ctx.index) s)
    ]
    | inr (again, input, queued) ↦ ground (arith, retry_delay-cases (inc_attempt x.ctx) s)
  ]

  send_or_store_task-task_rx :
      (x : Task I) (s t : Shared I O E Q)
      → send_or_store_task x s ≡ done tt t
      → t.task_rx ≡ s.task_rx
  send_or_store_task-task_rx x s t e =
      let (u, e', d, (rx, rq, n)) = send_or_store_task-Drained x s in
      let same : u ≡ t = ground arith in ground (arith, rx, same)

  none_received :
      (hung_up : Bool) (x : Task I) (s t : Shared I O E Q)
      → s.task_rx ≡ []
      → receive hung_up s ≡ done (ends (ok x)) t
      → ⊥
  unfolding receive
  none_received hung_up x s t p e = ground arith

  Step-Emptied :
      {s t : Closing I O E Q}
      → Emptied s.phase s.shared.task_rx
      → Step s t
      → Emptied t.phase t.shared.task_rx
  Step-Emptied h (drains_task x xs p q e) = inl p
  Step-Emptied h (tasks_drained p q) = inr q
  Step-Emptied {s} h (drains_retry {t} d q p rq e) =
      stays_empty h (send_or_store_task-task_rx d.value (record s.shared { retry_queue = q }) t e)
  Step-Emptied (inl p) (retries_drained p' q) = absurd (cc)
  Step-Emptied (inr p) (retries_drained p' q) = inr p
  Step-Emptied {s} h (pops {t} now x busy e) =
      stays_empty h (pop_retry-tasks s.shared t now (some x) e).0
  Step-Emptied (inl p) (receives hung_up x busy e) = inl p
  Step-Emptied {s} (inr p) (receives {t} hung_up x busy e) =
      absurd (none_received hung_up x s.shared t p e)
  Step-Emptied h (times_out busy) = h
  Step-Emptied {s} h (hangs_up {t} busy e) =
      stays_empty h (ap (λ u. u.task_rx) (hung_up-same s.shared t e))
  Step-Emptied h (sees_flag busy awake) = h
  Step-Emptied {s} h (exits busy) = stays_empty h (exit_thread-Leaves s.shared).tasks
  Step-Emptied {s} h (activates {t} pre post x split e) =
      stays_empty h (after (activate-Leaves x s.shared) e).tasks
  Step-Emptied {s} h (refuses {t} pre post x error split e) =
      stays_empty h (after (activate-Leaves x s.shared) e).tasks
  Step-Emptied {s} h (settles {t} now pre post x result split e) =
      stays_empty h (settle-task_rx now x result s.shared t e)
  Step-Emptied h (unwinds pre post x split) = h
  Step-Emptied h (retry_panics pre post x input error split again over) = h
  Step-Emptied {s} h (finishes {t} busy e) =
      stays_empty h (after (finish_task-Leaves false s.shared) e).tasks
  Step-Emptied {s} h (finish_panics {t} busy e) =
      stays_empty h (after (finish_task-Leaves false s.shared) e).tasks
  Step-Emptied {s} h (unwound {t} busy e) =
      stays_empty h (after (finish_task-Leaves true s.shared) e).tasks

  pub Closes-Emptied :
      {first s : Closing I O E Q}
      → Emptied first.phase first.shared.task_rx
      → Closes first s
      → Emptied s.phase s.shared.task_rx
  Closes-Emptied h starts = h
  Closes-Emptied h (goes_on before step) = Step-Emptied (Closes-Emptied h before) step
