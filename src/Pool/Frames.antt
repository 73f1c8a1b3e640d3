-- ===== src/Pool/Frames.antt =====
-- src/hive/shared.rs: what each step of a thread leaves of the two queues and of the channels.
use procpool.Common.{
  ℕ, ◌+◌, ◌≡◌, ◌⊎◌, inl, inr, [], ◌∷◌, ◌++◌, Option, none, some, Bool, true, false, ok, err, done,
  arith,
}
use procpool.Bee.{Context, WorkerResult, retryable, fatal, cancelled, panic_error, inc_attempt}
use procpool.Pool.{is_requeued}
use procpool.Pool.Counts.{retry_delay-cases}
use procpool.Delay.{try_pop, push, new_delayed}
use procpool.Hive.Submit.{send_task}
use procpool.Hive.Thread.{settle}
use procpool.Hive.Thread.Fate.{try_send_msg-live}
use procpool.Outcome.{from_worker_result}
use procpool.Shared.{Task, Shared, finish_task}
use procpool.Shared.Queue.{pop_retry, receive, activate, ends}
use procpool.Shared.Retry.{can_retry, update_next_retry, queue_retry, push_retry}
use procpool.Shared.Tasks.{new_task, prepare_task, send_or_store_outcome, deliver, sent_on}

module _ {ℓ} {I O E : Type ℓ} where
  -- A result that is delivered, and not tried again.
  abbrev pub Final : WorkerResult I O E → Type 0
  Final (err (retryable _ _)) = ⊥
  Final _ = Unit

module _ {ℓ} {I O E Q : Type ℓ} where
  -- The queues and the channels are the same.
  pub record Same (s t : Shared I O E Q) : Type ℓ where
    pub tasks : t.task_rx ≡ s.task_rx
    pub retries : t.retry_queue ≡ s.retry_queue
    pub mail : t.channels ≡ s.channels
    pub config : t.config ≡ s.config

  module _ (s t : Shared I O E Q) where
    pub prepare_task-Same :
        (input : I) (tx : Option ℕ) (x : Task I)
        → prepare_task input tx s ≡ done x t
        → Same s t × (x.input ≡ input) × (x.outcome_tx ≡ tx) × (x.ctx.attempt ≡ 0)
    unfolding prepare_task
    prepare_task-Same input tx x e = ground arith

    pub send_task-tasks :
        (x : Task I) (i : ℕ)
        → send_task x s ≡ done i t
        → (t.task_rx ≡ s.task_rx ++ x ∷ [])
          × (t.retry_queue ≡ s.retry_queue)
          × (t.channels ≡ s.channels)
          × (t.config ≡ s.config)
    unfolding send_task
    send_task-tasks x i e = ground arith

    pub receive-tasks :
        (x : Task I)
        → receive false s ≡ done (ends (ok x)) t
        → (s.task_rx ≡ x ∷ t.task_rx)
          × (t.retry_queue ≡ s.retry_queue)
          × (t.channels ≡ s.channels)
          × (t.config ≡ s.config)
    unfolding receive
    receive-tasks x e = ground arith

    pub activate-Same : (x : Task I) → activate (ends (ok x)) s ≡ done (ends (ok x)) t → Same s t
    unfolding activate
    activate-Same x e = ground arith

    pub finish_task-Same : (panicking : Bool) → finish_task panicking s ≡ done tt t → Same s t
    unfolding finish_task
    finish_task-Same panicking e = ground arith

    pub pop_retry-tasks :
        (now : ℕ) (popped : Option (Task I))
        → pop_retry now s ≡ done popped t
        → (t.task_rx ≡ s.task_rx)
          × (t.channels ≡ s.channels)
          × (t.config ≡ s.config)
          × (((popped ≡ none) × (t.retry_queue ≡ s.retry_queue))
              ⊎ (try_pop now s.retry_queue ≡ (popped, t.retry_queue)))
    unfolding pop_retry update_next_retry
    pop_retry-tasks now popped e = ground arith

    -- A task that is tried again is in the retry queue.
    pub settle-again :
        (now : ℕ) (ctx : Context) (tx : Option ℕ) (input : I) (error : E)
        → can_retry ctx s ≡ true
        → settle now ctx tx (err (retryable input error)) s ≡ done tt t
        → (at : ℕ) × (t.retry_queue
            ≡ record { value = new_task input (inc_attempt ctx) tx; until = at } ∷ s.retry_queue)
          × (t.task_rx ≡ s.task_rx)
          × (t.channels ≡ s.channels)
          × (t.config ≡ s.config)
          × (t.suspended ≡ s.suspended)
    unfolding settle queue_retry push_retry update_next_retry push new_delayed
    settle-again now ctx tx input error again e = elim (retry_delay-cases (inc_attempt ctx) s) [
      | inr no_delay ↦ ground arith
      | inl (delay, d) ↦
          (now + delay, ground arith, ground arith, ground arith, ground arith, ground arith)
    ]

    pub settle-sent :
        (now c : ℕ) (ctx : Context) (result : WorkerResult I O E)
        → is_requeued ctx result s ≡ false
        → (s.channels c).connected ≡ true
        → settle now ctx (some c) result s ≡ done tt t
        → t ≡ record s { channels = sent_on c (from_worker_result result ctx.index) s }
    unfolding settle send_or_store_outcome deliver
    settle-sent now c ctx (ok v) last live e =
        ground (arith, try_send_msg-live c (from_worker_result (ok v) ctx.index) s live)
    settle-sent now c ctx (err (retryable i x)) last live e =
        ground
          (arith, try_send_msg-live c (from_worker_result (err (retryable i x)) ctx.index) s live)
    settle-sent now c ctx (err (fatal i x)) last live e =
        ground (arith, try_send_msg-live c (from_worker_result (err (fatal i x)) ctx.index) s live)
    settle-sent now c ctx (err (cancelled i)) last live e =
        ground
          (arith, try_send_msg-live c (from_worker_result (err (cancelled i)) ctx.index) s live)
    settle-sent now c ctx (err (panic_error i p)) last live e =
        ground
          (arith, try_send_msg-live c (from_worker_result (err (panic_error i p)) ctx.index) s live)
