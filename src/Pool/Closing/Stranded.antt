-- ===== src/Pool/Closing/Stranded.antt =====
-- src/hive/shared.rs: the end of a hive whose last handle is dropped.
use procpool.Common.{
  ℕ, ◌+◌, ◌^◌, ◌<◌, ◌≤◌, ◌≡◌, refl, ap, List, [], ◌∷◌, ◌++◌, length, true, false, if◌then◌else◌,
  err, done, arith, subst, inl, inr,
}
use procpool.Bee.{WorkerResult, retryable}
use procpool.Config.{Config}
use procpool.Pool.{System, Reach, init}
use procpool.Pool.Closing.{
  Closing, Others, Step, Closes, AtRest, poisoned, nothing, drains_task, tasks_drained,
  drains_retry, retries_drained, pops, receives, times_out, hangs_up, sees_flag, exits, activates,
  refuses, settles, unwinds, retry_panics, finishes, finish_panics, unwound, starts, goes_on,
}
use procpool.Hive.Thread.{settle}
use procpool.Pool.Closing.Leaves.{after, exit_thread-Leaves, activate-Leaves, finish_task-Leaves}
use procpool.Pool.Closing.Emptied.{Closes-Emptied, settle-task_rx}
use procpool.Pool.Closing.Once.{everywhere, Closes-everywhere}
use procpool.Pool.Issued.{below}
use procpool.Pool.Conservation.{Reach-everywhere}
use procpool.Pool.Occurs.{occurs, occurs_tasks, occurs_retries, settle-queues}
use procpool.Pool.Once.{Reach-Issued}
use procpool.Shared.{Task, Channel, Shared}
use procpool.Shared.Retry.{can_retry}

module _ {ℓ} {I O E Q : Type ℓ} where
  -- Both queues were drained, and no thread that found the flag not set looks for a task.
  pub record Sealed (s : Closing I O E Q) : Type 0 where
    pub drained : s.phase ≡ nothing
    pub none_looking : s.looking ≡ 0

  Step-Sealed : {s t : Closing I O E Q} → Sealed s → Step s t → Sealed t
  Step-Sealed h (drains_task x xs p q e) = absurd (cc h.drained)
  Step-Sealed h (tasks_drained p q) = absurd (cc h.drained)
  Step-Sealed h (drains_retry d q p rq e) = absurd (cc h.drained)
  Step-Sealed h (retries_drained p q) = absurd (cc h.drained)
  Step-Sealed h (pops now x busy e) = absurd (omega (arith, h.none_looking))
  Step-Sealed h (receives hung_up x busy e) = absurd (omega (arith, h.none_looking))
  Step-Sealed h (times_out busy) = absurd (omega (arith, h.none_looking))
  Step-Sealed h (hangs_up busy e) = absurd (omega (arith, h.none_looking))
  Step-Sealed h _ = record { drained = h.drained; none_looking = h.none_looking }

  -- Then no task leaves the retry queue.
  Step-stranded :
      (k : ℕ) {s t : Closing I O E Q}
      → Sealed s
      → Step s t
      → occurs_retries k s.shared.retry_queue ≤ occurs_retries k t.shared.retry_queue
  Step-stranded k h (drains_task x xs p q e) = absurd (cc h.drained)
  Step-stranded k h (tasks_drained p q) = absurd (cc h.drained)
  Step-stranded k h (drains_retry d q p rq e) = absurd (cc h.drained)
  Step-stranded k h (retries_drained p q) = absurd (cc h.drained)
  Step-stranded k h (pops now x busy e) = absurd (omega (arith, h.none_looking))
  Step-stranded k h (receives hung_up x busy e) = absurd (omega (arith, h.none_looking))
  Step-stranded k h (times_out busy) = absurd (omega (arith, h.none_looking))
  Step-stranded k h (hangs_up busy e) = absurd (omega (arith, h.none_looking))
  Step-stranded k h (sees_flag busy awake) = omega arith
  Step-stranded k {s} h (exits busy) =
      omega (arith, ap (occurs_retries k) (exit_thread-Leaves s.shared).retries)
  Step-stranded k {s} h (activates {t} pre post x split e) =
      omega (arith, ap (occurs_retries k) (after (activate-Leaves x s.shared) e).retries)
  Step-stranded k {s} h (refuses {t} pre post x error split e) =
      omega (arith, ap (occurs_retries k) (after (activate-Leaves x s.shared) e).retries)
  Step-stranded k {s} h (settles {t} now pre post x result split e) = omega (
    arith,
    settle-queues k now x.ctx x.outcome_tx result s.shared t e,
    ap (occurs_tasks k) (settle-task_rx now x result s.shared t e),
  )
  Step-stranded k h (unwinds pre post x split) = omega arith
  Step-stranded k h (retry_panics pre post x input error split again over) = omega arith
  Step-stranded k {s} h (finishes {t} busy e) =
      omega (arith, ap (occurs_retries k) (after (finish_task-Leaves false s.shared) e).retries)
  Step-stranded k {s} h (finish_panics {t} busy e) =
      omega (arith, ap (occurs_retries k) (after (finish_task-Leaves false s.shared) e).retries)
  Step-stranded k {s} h (unwound {t} busy e) =
      omega (arith, ap (occurs_retries k) (after (finish_task-Leaves true s.shared) e).retries)

  Closes-stranded :
      (k : ℕ) {s t : Closing I O E Q}
      → Sealed s
      → Closes s t
      → Sealed t × (occurs_retries k s.shared.retry_queue ≤ occurs_retries k t.shared.retry_queue)
  Closes-stranded k h starts = (h, omega arith)
  Closes-stranded k h (goes_on before step) =
      let (h', le) = Closes-stranded k h before in
      (Step-Sealed h' step, omega (arith, le, Step-stranded k h' step))

  Closes-trans : {s t u : Closing I O E Q} → Closes s t → Closes t u → Closes s u
  Closes-trans before starts = before
  Closes-trans before (goes_on rest step) = goes_on (Closes-trans before rest) step

module _ {ℓ} {I O E Q : Type ℓ} {threads : ℕ} (config : Config) (queen : Q)
    (channels : ℕ → Channel I O E) (s : System I O E Q)
    (r : Reach threads (init config queen channels) s) (no_batch : s.reserved ≡ [])
    (all_sent : s.prepared ≡ []) (others : Others) (fits : length s.created ≤ 2 ^ 64) where
  each_once :
      (k : ℕ) (c : Closing I O E Q)
      → Closes (poisoned others s) c
      → everywhere k c ≡ below k (length s.created)
  each_once k c closing = omega (
    arith,
    Closes-everywhere k closing,
    Reach-everywhere k config queen channels s r,
    (Reach-Issued config queen channels s r).each_once k fits,
    ap (occurs k) no_batch,
    ap (occurs_tasks k) all_sent,
  )

  -- Where the last handle of a hive is dropped in a state that its steps reach, while no task is being
  -- submitted, and at most 2^64 tasks have been made: whatever the worker threads do while the queues
  -- are drained and after, once no thread has a task that is not settled, or looks for one, each task
  -- ever made is in exactly one place: delivered, as processed or as unprocessed; or lost in a panic of
  -- its worker or of the delay of its retry; or in the retry queue; or dropped with no outcome by a
  -- thread that received it and found the counter wrong, as it is after other threads have left.
  pub drop-once :
      (c : Closing I O E Q)
      → Closes (poisoned others s) c
      → AtRest c
      → (k : ℕ) → k < length s.created
      → occurs k c.delivered
          + occurs k c.lost
          + occurs k c.refused
          + occurs_retries k c.shared.retry_queue
        ≡ 1
  drop-once c closing rest k made = elim (Closes-Emptied (inl refl) closing) [
    | inl draining ↦ absurd (cc rest.drained)
    | inr empty ↦ ground (
      arith,
      each_once k c closing,
      ap (occurs_tasks k) empty,
      ap (occurs_tasks k) rest.none_received,
      ap (occurs_tasks k) rest.none_running,
    )
  ]

  -- In the same setting, once both queues were drained and no thread looks for a task, a task whose
  -- worker returns a retryable error below the limit of retries is queued again, although the hive is
  -- poisoned. No later step takes it out of the retry queue: in every later state it is there, and was
  -- never delivered, neither with its error nor as unprocessed.
  pub settle-stranded :
      (c : Closing I O E Q)
      → Closes (poisoned others s) c
      → Sealed c
      → (now : ℕ) (pre post : List (Task I)) (x : Task I) (input : I) (error : E)
        (t : Shared I O E Q)
      → c.running ≡ pre ++ x ∷ post
      → can_retry x.ctx c.shared ≡ true
      → settle now x.ctx x.outcome_tx (err (retryable input error)) c.shared ≡ done tt t
      → (v : Closing I O E Q)
      → Closes (record c { shared = t; running = pre ++ post; finishing = c.finishing + 1 }) v
      → (occurs_retries x.ctx.index v.shared.retry_queue ≡ 1)
        × (occurs x.ctx.index v.delivered ≡ 0)
        × (occurs x.ctx.index v.lost ≡ 0)
  settle-stranded c closing sealed now pre post x input error t split again e v later =
      let k = x.ctx.index in
      let result : WorkerResult I O E = err (retryable input error) in
      let retried : Step c
          (record c { shared = t; running = pre ++ post; finishing = c.finishing + 1 }) =
        subst
          (λ b. Step c (record c {
            shared = t;
            running = pre ++ post;
            finishing = c.finishing + 1;
            delivered = if b then c.delivered else k ∷ c.delivered;
          }))
          again (settles now pre post x result split e) in
      let queued = settle-queues k now x.ctx x.outcome_tx result c.shared t e in
      let same = ap (occurs_tasks k) (settle-task_rx now x result c.shared t e) in
      let (_, kept) = Closes-stranded k (Step-Sealed sealed retried) later in
      let in_all = each_once k v (Closes-trans (goes_on closing retried) later) in
      let in_queue : 1 ≤ occurs_retries k t.retry_queue = ground (arith, queued, same, again) in
      ground (arith, in_all, kept, in_queue)
