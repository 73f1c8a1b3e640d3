-- ===== src/Pool/Totals.antt =====
-- src/hive/hive.rs and src/hive/shared.rs: what the steps of a worker thread return, where they do.
use procpool.Common.{
  ℕ, ◌+◌, ◌-◌, ◌^◌, ◌<◌, ◌≤◌, ◌≡◌, true, refl, ◌⊎◌, inl, inr, List, [], ◌∷◌, ◌++◌, Option, none,
  some, false, ok, err, done, arith, Option-cases, Bool-cases,
}
use procpool.Bee.{Context, WorkerResult, retryable, fatal, cancelled, panic_error, inc_attempt}
use procpool.Hive.Submit.{send_task}
use procpool.Hive.Thread.{settle}
use procpool.Outcome.{Outcome, from_worker_result}
use procpool.Pool.Counts.{Counts, increment_word, try_send_msg-cases}
use procpool.Atomic.{get_option}
use procpool.Pool.{is_requeued}
use procpool.Shared.{Task, Shared}
use procpool.Shared.Queue.{pop_retry, receive, ends}
use procpool.Shared.Retry.{update_next_retry, retry_delay, saturating_mul, can_retry, queue_retry}
use procpool.Common.Maps.{insert}
use procpool.Shared.Tasks.{send_or_store_outcome, deliver, add_outcome, sent_on}
use procpool.Outcome.{index}
use procpool.Common.{state_after}
use procpool.Shared.Queue.{has_retry}
use procpool.Delay.{try_pop}

module _ {ℓ} {I O E Q : Type ℓ} where
  -- A state that has the same queues.
  pub record SameQueues (s t : Shared I O E Q) : Type ℓ where
    pub tasks : t.task_rx ≡ s.task_rx
    pub retries : t.retry_queue ≡ s.retry_queue
    pub suspended : t.suspended ≡ s.suspended
    pub config : t.config ≡ s.config

  deliver_total :
      (o : Outcome I O E) (tx : Option ℕ) (s : Shared I O E Q)
      → (t : Shared I O E Q) × (send_or_store_outcome o tx s ≡ done tt t) × SameQueues s t
  unfolding send_or_store_outcome deliver add_outcome
  deliver_total o none s = (
    record s { outcomes = insert (index o) o s.outcomes },
    refl,
    record { tasks = refl; retries = refl; suspended = refl; config = refl },
  )
  deliver_total o (some tx) s = elim (try_send_msg-cases tx o s) [
    | inl sent ↦ (
      record s { channels = sent_on tx o s },
      ground (arith, sent),
      record { tasks = refl; retries = refl; suspended = refl; config = refl },
    )
    | inr back ↦ (
      record s { outcomes = insert (index o) o s.outcomes },
      ground (arith, back),
      record { tasks = refl; retries = refl; suspended = refl; config = refl },
    )
  ]

  -- `execute` settles every task that is not tried again.
  pub settle_total :
      (now : ℕ) (ctx : Context) (tx : Option ℕ) (result : WorkerResult I O E) (s : Shared I O E Q)
      → is_requeued ctx result s ≡ false
      → (t : Shared I O E Q) × (settle now ctx tx result s ≡ done tt t) × SameQueues s t
  unfolding settle
  settle_total now ctx tx (ok v) s last = deliver_total _ tx s
  settle_total now ctx tx (err (retryable i x)) s last =
      let (t, delivered, same) =
        deliver_total (from_worker_result (err (retryable i x)) ctx.index) tx s in
      (t, ground (arith, delivered), same)
  settle_total now ctx tx (err (fatal i x)) s last = deliver_total _ tx s
  settle_total now ctx tx (err (cancelled i)) s last = deliver_total _ tx s
  settle_total now ctx tx (err (panic_error i p)) s last = deliver_total _ tx s

  -- The delay of a retry, up to the attempt 64.
  pub retry_delay_total :
      (ctx : Context) (s : Shared I O E Q)
      → 0 < ctx.attempt
      → ctx.attempt ≤ 64
      → (d : ℕ) × (retry_delay ctx s ≡ done d s)
  unfolding retry_delay
  retry_delay_total ctx s some_try few_tries =
      elim (Option-cases (get_option s.config.retry_factor)) [
        | inl e ↦ (0, rw (e, retry_delay))
        | inr (f, e) ↦ (saturating_mul f (2 ^ (ctx.attempt - 1)), ground (arith, e))
      ]

  -- `execute` queues a task that is tried again, up to its attempt 64, where the counter has room.
  pub settle_again_total :
      {queued active : ℕ} (now : ℕ) (ctx : Context) (tx : Option ℕ) (input : I) (error : E)
      (s : Shared I O E Q)
      → Counts s queued active
      → queued + 1 < 2 ^ 48
      → ctx.attempt < 64
      → can_retry ctx s ≡ true
      → (t : Shared I O E Q) × (settle now ctx tx (err (retryable input error)) s ≡ done tt t)
  unfolding settle queue_retry inc_attempt
  settle_again_total now ctx tx input error s c room few_tries again =
      let next : Context = inc_attempt ctx in
      let (d, delay) = retry_delay_total next s (omega arith) (omega arith) in
      (
        state_after (settle now ctx tx (err (retryable input error)) s),
        ground (arith, delay, increment_word c 1),
      )

  -- A round that looks for a retry finds none, or one.
  pub pop_retry-cases :
      (now : ℕ) (s : Shared I O E Q)
      → ((t : Shared I O E Q) × (pop_retry now s ≡ done none t))
        ⊎ ((x : Task I) × (t : Shared I O E Q) × (pop_retry now s ≡ done (some x) t))
  unfolding pop_retry update_next_retry
  pop_retry-cases now s = elim (Bool-cases (has_retry now s)) [
    | inr early ↦ inl (s, ground (arith, early))
    | inl due ↦ elim (Option-cases (try_pop now s.retry_queue).0) [
      | inl gone ↦ inl (state_after (pop_retry now s), ground (arith, due, gone))
      | inr (x, found) ↦ inr (x, state_after (pop_retry now s), ground (arith, due, found))
    ]
  ]

  pub pop_retry-frame :
      (now : ℕ) (popped : Option (Task I)) (s t : Shared I O E Q)
      → pop_retry now s ≡ done popped t
      → (t.task_rx ≡ s.task_rx) × (t.suspended ≡ s.suspended)
  unfolding pop_retry update_next_retry
  pop_retry-frame now popped s t e = ground arith

  pub send_task_total :
      (x : Task I) (s : Shared I O E Q)
      → send_task x s ≡ done x.ctx.index (record s { task_rx = s.task_rx ++ x ∷ [] })
  unfolding send_task
  send_task_total x s = refl

  pub receive_total :
      (x : Task I) (rest : List (Task I)) (s : Shared I O E Q)
      → s.task_rx ≡ x ∷ rest
      → receive false s ≡ done (ends (ok x)) (record s { task_rx = rest })
  unfolding receive
  receive_total x rest s e = ground arith
