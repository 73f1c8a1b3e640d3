-- ===== src/Pool/Issued.antt =====
-- src/hive/shared.rs, `prepare_task` and `prepare_batch`: the next index, and what each step does to it.
use procpool.Common.{
  suc, zero, ℕ, ◌+◌, ◌%◌, ◌^◌, ◌≡◌, List, Option, none, some, Bool, false, ltb, if◌then◌else◌, ok,
  done, arith, inl, inr, range,
}
use procpool.Bee.{Context, WorkerResult, inc_attempt}
use procpool.Hive.Submit.{send_task}
use procpool.Hive.Thread.{settle}
use procpool.Outcome.{Outcome, from_worker_result}
use procpool.Pool.Counts.{retry_delay-cases, try_send_msg-cases}
use procpool.Pool.Occurs.{one, occurs}
use procpool.Pool.Settle.{settle-cases}
use procpool.Shared.{Task, Shared, finish_task}
use procpool.Shared.Queue.{pop_retry, receive, activate, ends}
use procpool.Shared.Retry.{queue_retry, push_retry, update_next_retry}
use procpool.Shared.Tasks.{prepare_task, reserve, send_or_store_outcome, deliver, add_outcome}

-- How often `k` is among the first `n` indices.
abbrev pub below : ℕ → ℕ → ℕ
below k n = if ltb k n then 1 else 0

pub below-suc : (k n : ℕ) → below k (n + 1) ≡ one k n + below k n
below-suc k n = ground arith

pub occurs-range : (k first n : ℕ) → occurs k (range first n) + below k first ≡ below k (first + n)
occurs-range k first zero = ground arith
occurs-range k first (suc n) = ground (arith, occurs-range k (first + 1) n, below-suc k first)

module _ {ℓ} {I O E Q : Type ℓ} where
  pub prepare_task-next :
      (input : I) (tx : Option ℕ) (x : Task I) (s t : Shared I O E Q)
      → prepare_task input tx s ≡ done x t
      → (x.ctx.index ≡ s.next_task_index) × (t.next_task_index ≡ (s.next_task_index + 1) % 2 ^ 64)
  unfolding prepare_task
  prepare_task-next input tx x s t e = ground arith

  pub reserve-next :
      (n : ℕ) (indices : List ℕ) (s t : Shared I O E Q)
      → reserve n s ≡ done indices t
      → (indices ≡ range s.next_task_index n)
        × (t.next_task_index ≡ (s.next_task_index + n) % 2 ^ 64)
  unfolding reserve
  reserve-next n indices s t e = ground arith

  pub send_task-next :
      (x : Task I) (i : ℕ) (s t : Shared I O E Q)
      → send_task x s ≡ done i t
      → t.next_task_index ≡ s.next_task_index
  unfolding send_task
  send_task-next x i s t e = ground arith

  pub pop_retry-next :
      (now : ℕ) (popped : Option (Task I)) (s t : Shared I O E Q)
      → pop_retry now s ≡ done popped t
      → t.next_task_index ≡ s.next_task_index
  unfolding pop_retry update_next_retry
  pop_retry-next now popped s t e = ground arith

  pub receive-next :
      (x : Task I) (s t : Shared I O E Q)
      → receive false s ≡ done (ends (ok x)) t
      → t.next_task_index ≡ s.next_task_index
  unfolding receive
  receive-next x s t e = ground arith

  pub activate-next :
      (x : Task I) (s t : Shared I O E Q)
      → activate (ends (ok x)) s ≡ done (ends (ok x)) t
      → t.next_task_index ≡ s.next_task_index
  unfolding activate
  activate-next x s t e = ground arith

  pub finish_task-next :
      (panicking : Bool) (s t : Shared I O E Q)
      → finish_task panicking s ≡ done tt t
      → t.next_task_index ≡ s.next_task_index
  unfolding finish_task
  finish_task-next panicking s t e = ground arith

  delivered-next :
      (o : Outcome I O E) (tx : Option ℕ) (s t : Shared I O E Q)
      → send_or_store_outcome o tx s ≡ done tt t
      → t.next_task_index ≡ s.next_task_index
  unfolding send_or_store_outcome deliver add_outcome
  delivered-next o none s t e = ground arith
  delivered-next o (some tx) s t e = ground (arith, try_send_msg-cases tx o s)

  queue_retry-next :
      (now : ℕ) (input : I) (ctx : Context) (tx : Option ℕ) (s t : Shared I O E Q)
      → queue_retry now input ctx tx s ≡ done tt t
      → t.next_task_index ≡ s.next_task_index
  unfolding queue_retry push_retry update_next_retry
  queue_retry-next now input ctx tx s t e = ground (arith, retry_delay-cases ctx s)

  pub settle-next :
      (now : ℕ) (ctx : Context) (tx : Option ℕ) (result : WorkerResult I O E) (s t : Shared I O E Q)
      → settle now ctx tx result s ≡ done tt t
      → t.next_task_index ≡ s.next_task_index
  unfolding inc_attempt
  settle-next now ctx tx result s t e = elim (settle-cases now ctx tx result s t e) [
    | inl (last, sent) ↦ delivered-next (from_worker_result result ctx.index) tx s t sent
    | inr (again, input, queued) ↦ queue_retry-next now input (inc_attempt ctx) tx s t queued
  ]
