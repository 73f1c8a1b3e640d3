-- ===== src/Hive/Thread.antt =====
-- src/hive/hive.rs: what a worker thread does with a task, and what its sentinel does when it ends.
pub mod Fate
use procpool.Common.{
  ℕ, List, [], ◌∷◌, Option, none, some, Bool, true, false, not, ◌&&◌, if◌then◌else◌, Result, ok,
  err, Exec, done, ◌>>=◌, ◌>>◌, pure, read,
}
use procpool.Bee.{
  Context, Unwind, returned, unwound, WorkerResult, ApplyError, retryable, inc_attempt,
}
use procpool.Outcome.{Outcome, from_worker_result}
use procpool.Shared.{Task, Shared, Call, finish_task}
use procpool.Shared.Tasks.{send_or_store_outcome}
use procpool.Shared.Retry.{can_retry, queue_retry}

module _ {ℓ} {I O E Q : Type ℓ} where
  -- `execute`, from where `worker.apply` has returned `result`.
  unfoldable pub settle : ℕ → Context → Option ℕ → WorkerResult I O E → Call I O E Q (Unit {0})
  unfolding inc_attempt from_worker_result
  settle now ctx outcome_tx (ok value) =
      send_or_store_outcome (from_worker_result (ok value) ctx.index) outcome_tx
  settle now ctx outcome_tx (err (retryable input error)) = do
    again ← read (can_retry ctx)
    if again
        then queue_retry now input (inc_attempt ctx) outcome_tx
        else send_or_store_outcome (from_worker_result (err (retryable input error)) ctx.index)
            outcome_tx
  settle now ctx outcome_tx (err e) =
      send_or_store_outcome (from_worker_result (err e) ctx.index) outcome_tx

  -- `Drop` of a sentinel: whether the thread is spawned again.
  unfoldable pub drop_sentinel : Bool → Bool → Call I O E Q Bool
  unfolding finish_task
  drop_sentinel active panicking = do finish_task panicking; read (λ s. active && not s.poisoned)

  -- One task of the loop of a worker thread: the worker runs, and the task is finished. Where the
  -- worker panics, the sentinel finishes the task; the result is whether the thread goes on, in this
  -- thread or in one that replaces it.
  unfoldable pub execute_task {κ} :
      {W : Type κ}
      → (W → I → Context → W × Unwind (WorkerResult I O E))
      → ℕ
      → Task I
      → W
      → Call I O E Q (W × Bool)
  unfolding settle drop_sentinel
  execute_task apply now t w =
      let (w', call) = apply w t.input t.ctx in
      elim call [
        | returned result ↦ (do
          settle now t.ctx t.outcome_tx result
          finish_task false
          pure (w', true))
        | unwound _ ↦ (do respawn ← drop_sentinel true true; pure (w', respawn))
      ]

  -- The end of a worker thread whose loop has ended: the sentinel is cancelled, and dropped.
  unfoldable pub exit_thread : Call I O E Q Bool
  unfolding drop_sentinel
  exit_thread = drop_sentinel false false
