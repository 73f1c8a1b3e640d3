-- ===== src/Pool/Occurs.antt =====
-- What the operations of src/hive/shared.rs and src/hive/hive.rs do to the tasks in the two queues.
use procpool.Common.{
  ℕ, ◌+◌, ◌≡◌, List, [], ◌∷◌, ◌++◌, Option, none, some, Bool, false, ◌==◌, leb, if◌then◌else◌, ok,
  done, arith, inl, inr, Bool-cases, Option-cases,
}
use procpool.Bee.{Context, WorkerResult, inc_attempt}
use procpool.Delay.{Delayed, DelayQueue, heap_pop, try_pop, push, new_delayed}
use procpool.Delay.Laws.{try_pop-none, heap_pop-cases}
use procpool.Hive.Submit.{send_task}
use procpool.Hive.Thread.{settle}
use procpool.Outcome.{Outcome, from_worker_result}
use procpool.Pool.{System, is_requeued}
use procpool.Pool.Counts.{retry_delay-cases, try_send_msg-cases}
use procpool.Pool.Settle.{settle-cases}
use procpool.Shared.{Task, Shared, finish_task}
use procpool.Shared.Queue.{pop_retry, receive, activate, ends}
use procpool.Shared.Retry.{queue_retry, push_retry, update_next_retry}
use procpool.Shared.Tasks.{
  prepare_task, reserve, new_task, send_or_store_outcome, deliver, add_outcome,
}

-- How often the index `k` occurs: one index, a list, the tasks of a list, those of the retry queue.
abbrev pub one : ℕ → ℕ → ℕ
one k i = if i == k then 1 else 0

abbrev pub occurs : ℕ → List ℕ → ℕ
occurs k [] = 0
occurs k (i ∷ is) = one k i + occurs k is

module _ {ℓ} {I : Type ℓ} where
  abbrev pub occurs_tasks : ℕ → List (Task I) → ℕ
  occurs_tasks k [] = 0
  occurs_tasks k (x ∷ xs) = one k x.ctx.index + occurs_tasks k xs

  abbrev pub occurs_retries : ℕ → DelayQueue (Task I) → ℕ
  occurs_retries k [] = 0
  occurs_retries k (d ∷ q) = one k d.value.ctx.index + occurs_retries k q

  pub occurs_tasks-append :
      (k : ℕ) (xs ys : List (Task I))
      → occurs_tasks k (xs ++ ys) ≡ occurs_tasks k xs + occurs_tasks k ys
  occurs_tasks-append k [] ys = omega arith
  occurs_tasks-append k (x ∷ xs) ys = omega (arith, occurs_tasks-append k xs ys)

  heap_pop-occurs :
      (k : ℕ) (q rest : DelayQueue (Task I)) (d : Delayed (Task I))
      → heap_pop q ≡ some (d, rest)
      → occurs_retries k q ≡ one k d.value.ctx.index + occurs_retries k rest
  unfolding heap_pop
  heap_pop-occurs k [] rest d e = absurd (cc)
  heap_pop-occurs k (x ∷ q) rest d e = elim (Option-cases (heap_pop q)) [
    | inl p ↦ elim (heap_pop-cases q) [
      | inl (empty, _) ↦ ground (arith, p, empty)
      | inr (first, others, p', v) ↦ ground arith
    ]
    | inr ((first, others), p) ↦ elim (Bool-cases (leb x.until first.until)) [
      | inl early ↦ ground (arith, p)
      | inr late ↦ ground (arith, p, heap_pop-occurs k q others first p)
    ]
  ]

  try_pop-occurs :
      (k now : ℕ) (q rest : DelayQueue (Task I)) (x : Task I)
      → try_pop now q ≡ (some x, rest)
      → occurs_retries k q ≡ one k x.ctx.index + occurs_retries k rest
  unfolding try_pop
  try_pop-occurs k now q rest x e = elim (Option-cases (heap_pop q)) [
    | inl p ↦ ground arith
    | inr ((d, others), p) ↦ ground (arith, heap_pop-occurs k q others d p)
  ]

pub occurs-append : (k : ℕ) (is js : List ℕ) → occurs k (is ++ js) ≡ occurs k is + occurs k js
occurs-append k [] js = omega arith
occurs-append k (i ∷ is) js = omega (arith, occurs-append k is js)

module _ {ℓ} {I O E Q : Type ℓ} where
  -- The tasks in the two queues.
  abbrev pub in_queues : ℕ → Shared I O E Q → ℕ
  in_queues k s = occurs_tasks k s.task_rx + occurs_retries k s.retry_queue

  -- How often an index is somewhere: reserved, in a task, delivered or lost.
  abbrev pub everywhere : ℕ → System I O E Q → ℕ
  everywhere k s =
      occurs k s.reserved
      + occurs_tasks k s.prepared
      + in_queues k s.shared
      + occurs_tasks k s.received
      + occurs_tasks k s.running
      + occurs k s.delivered
      + occurs k s.lost

  module _ (k : ℕ) where
    pub prepare_task-queues :
        (input : I) (tx : Option ℕ) (x : Task I) (s t : Shared I O E Q)
        → prepare_task input tx s ≡ done x t
        → in_queues k t ≡ in_queues k s
    unfolding prepare_task
    prepare_task-queues input tx x s t e = ground arith

    pub reserve-queues :
        (n : ℕ) (indices : List ℕ) (s t : Shared I O E Q)
        → reserve n s ≡ done indices t
        → in_queues k t ≡ in_queues k s
    unfolding reserve
    reserve-queues n indices s t e = ground arith

    pub send_task-queues :
        (x : Task I) (i : ℕ) (s t : Shared I O E Q)
        → send_task x s ≡ done i t
        → in_queues k t ≡ in_queues k s + one k x.ctx.index
    unfolding send_task
    send_task-queues x i s t e = ground (arith, occurs_tasks-append k s.task_rx (x ∷ []))

    pub pop_retry-queues :
        (now : ℕ) (x : Task I) (s t : Shared I O E Q)
        → pop_retry now s ≡ done (some x) t
        → in_queues k t + one k x.ctx.index ≡ in_queues k s
    unfolding pop_retry update_next_retry
    pop_retry-queues now x s t e =
        ground (arith, try_pop-occurs k now s.retry_queue (try_pop now s.retry_queue).1 x)

    pub pop_retry-none-queues :
        (now : ℕ) (s t : Shared I O E Q)
        → pop_retry now s ≡ done none t
        → in_queues k t ≡ in_queues k s
    unfolding pop_retry update_next_retry
    pop_retry-none-queues now s t e =
        ground (arith, try_pop-none now s.retry_queue (try_pop now s.retry_queue).1)

    pub receive-queues :
        (x : Task I) (s t : Shared I O E Q)
        → receive false s ≡ done (ends (ok x)) t
        → in_queues k t + one k x.ctx.index ≡ in_queues k s
    unfolding receive
    receive-queues x s t e = ground arith

    pub activate-queues :
        (x : Task I) (s t : Shared I O E Q)
        → activate (ends (ok x)) s ≡ done (ends (ok x)) t
        → in_queues k t ≡ in_queues k s
    unfolding activate
    activate-queues x s t e = ground arith

    pub finish_task-queues :
        (panicking : Bool) (s t : Shared I O E Q)
        → finish_task panicking s ≡ done tt t
        → in_queues k t ≡ in_queues k s
    unfolding finish_task
    finish_task-queues panicking s t e = ground arith

    pub delivered-queues :
        (o : Outcome I O E) (tx : Option ℕ) (s t : Shared I O E Q)
        → send_or_store_outcome o tx s ≡ done tt t
        → in_queues k t ≡ in_queues k s
    unfolding send_or_store_outcome deliver add_outcome
    delivered-queues o none s t e = ground arith
    delivered-queues o (some tx) s t e = ground (arith, try_send_msg-cases tx o s)

    pub queue_retry-queues :
        (now : ℕ) (input : I) (ctx : Context) (tx : Option ℕ) (s t : Shared I O E Q)
        → queue_retry now input ctx tx s ≡ done tt t
        → in_queues k t ≡ in_queues k s + one k ctx.index
    unfolding queue_retry push_retry update_next_retry push new_delayed new_task
    queue_retry-queues now input ctx tx s t e = ground (arith, retry_delay-cases ctx s)

    -- A task that is settled is in the retry queue again, or is not.
    pub settle-queues :
        (now : ℕ) (ctx : Context) (tx : Option ℕ) (result : WorkerResult I O E)
        (s t : Shared I O E Q)
        → settle now ctx tx result s ≡ done tt t
        → in_queues k t ≡ in_queues k s + (if is_requeued ctx result s then one k ctx.index else 0)
    unfolding inc_attempt
    settle-queues now ctx tx result s t e = elim (settle-cases now ctx tx result s t e) [
      | inl (last, sent) ↦
          let same = delivered-queues (from_worker_result result ctx.index) tx s t sent in
          rw last (omega arith)
      | inr (again, input, queued) ↦
          rw again (queue_retry-queues now input (inc_attempt ctx) tx s t queued)
    ]
