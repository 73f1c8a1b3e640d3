-- ===== src/Pool/Counts.antt =====
-- What the operations of the shared state do to the counter of tasks, in terms of the numbers that it
-- packs.
use procpool.Common.{
  ℕ, ◌+◌, ◌-◌, ◌^◌, ◌<◌, ◌≡◌, List, [], ◌∷◌, length, length-append, length-range, Option, none,
  some, Bool, ok, done, panicked, arith, inl, inr, ◌⊎◌, Bool-cases, Option-cases,
}
use procpool.Bee.{Context}
use procpool.Counter
use procpool.Counter.{CounterError, checked_sub}
use procpool.Counter.Laws.{
  pack, increment_pair, decrement_pair, transfer_pair, get-pack, increment_left-pack,
  decrement_right-pack, transfer-pack,
}
use procpool.Delay.{try_pop}
use procpool.Delay.Laws.{length-try_pop, try_pop-none}
use procpool.Outcome.{Outcome}
use procpool.Shared.{Task, Shared, finish_task, num_tasks}
use procpool.Shared.Tasks.{
  prepare_task, reserve, send_or_store_outcome, add_outcome, deliver, try_send_msg, sent_on,
}
use procpool.Atomic.{get_option}
use procpool.Shared.Retry.{checked_pow_two, saturating_mul, retry_delay, update_next_retry}
use procpool.Shared.Queue.{ends, pop_retry, receive, activate}
use procpool.Hive.Submit.{send_task}

module _ {ℓ} {I O E Q : Type ℓ} where
  -- The counter holds these numbers of queued and of active tasks.
  pub record Counts (s : Shared I O E Q) (queued active : ℕ) : Type 0 where
    pub word : s.num_tasks ≡ pack 48 queued active
    pub queued_fits : queued < 2 ^ 48
    pub active_fits : active < 2 ^ 16

  -- The tasks that wait in the two queues.
  abbrev pub waiting : Shared I O E Q → ℕ
  waiting s = length s.task_rx + length s.retry_queue

  module _ {s : Shared I O E Q} {queued active : ℕ} (c : Counts s queued active) where
    pub increment_word :
        (n : ℕ) → Counter.increment_left 48 n s.num_tasks ≡ increment_pair 48 n queued active
    increment_word n = rw c.word (
        increment_left-pack 48 (omega arith) (omega arith) queued active c.queued_fits c.active_fits
          n)

    pub decrement_word :
        (n : ℕ) → Counter.decrement_right 48 n s.num_tasks ≡ decrement_pair 48 n queued active
    decrement_word n = rw c.word (
        decrement_right-pack 48 (omega arith) (omega arith) queued active c.queued_fits
          c.active_fits n)

    pub transfer_word :
        (n : ℕ) → Counter.transfer 48 n s.num_tasks ≡ transfer_pair 48 n queued active
    transfer_word n =
        rw c.word
          (transfer-pack 48 (omega arith) (omega arith) queued active c.queued_fits c.active_fits n)

    pub num_tasks-Counts : num_tasks s ≡ (queued, active)
    unfolding num_tasks
    num_tasks-Counts =
        rw c.word
          (get-pack 48 (omega arith) (omega arith) queued active c.queued_fits c.active_fits)

    module _ {t : Shared I O E Q} where
      pub prepare_task-Counts :
          (input : I) (tx : Option ℕ) (x : Task I)
          → prepare_task input tx s ≡ done x t
          → Counts t (queued + 1) active × (waiting t ≡ waiting s) × (t.poisoned ≡ s.poisoned)
      unfolding prepare_task
      prepare_task-Counts input tx x e =
          ground (arith, increment_word 1, c.queued_fits, c.active_fits)

      pub reserve-Counts :
          (n : ℕ) (indices : List ℕ)
          → reserve n s ≡ done indices t
          → Counts t (queued + n) active × (waiting t ≡ waiting s) × (t.poisoned ≡ s.poisoned)
      unfolding reserve
      reserve-Counts n indices e = ground (arith, increment_word n, c.queued_fits, c.active_fits)

      pub activate-Counts :
          (x : Task I)
          → active + 1 < 2 ^ 16
          → activate (ends (ok x)) s ≡ done (ends (ok x)) t
          → Counts t (queued - 1) (active + 1) × (waiting t ≡ waiting s) × (t.poisoned ≡ s.poisoned)
      unfolding activate
      activate-Counts x room e = ground (arith, transfer_word 1, c.queued_fits, c.active_fits)

      pub finish_task-Counts :
          (panicking : Bool)
          → finish_task panicking s ≡ done tt t
          → Counts t queued (active - 1) × (waiting t ≡ waiting s) × (t.poisoned ≡ s.poisoned)
      unfolding finish_task
      finish_task-Counts panicking e =
          ground (arith, decrement_word 1, c.queued_fits, c.active_fits)

  pub reserve-length :
      (n : ℕ) (indices : List ℕ) (s t : Shared I O E Q)
      → reserve n s ≡ done indices t
      → length indices ≡ n
  unfolding reserve
  reserve-length n indices s t e = ground (arith, length-range s.next_task_index n)

  -- What an operation leaves alone.
  abbrev pub SameCounter : Shared I O E Q → Shared I O E Q → Type 0
  SameCounter s t = (t.num_tasks ≡ s.num_tasks) × (t.poisoned ≡ s.poisoned)

  pub send_task-waiting :
      (x : Task I) (i : ℕ) (s t : Shared I O E Q)
      → send_task x s ≡ done i t
      → SameCounter s t × (waiting t ≡ waiting s + 1)
  unfolding send_task
  send_task-waiting x i s t e = ground (arith, length-append s.task_rx (x ∷ []))

  pub receive-waiting :
      (hung_up : Bool) (x : Task I) (s t : Shared I O E Q)
      → receive hung_up s ≡ done (ends (ok x)) t
      → SameCounter s t × (waiting t + 1 ≡ waiting s)
  unfolding receive
  receive-waiting hung_up x s t e = ground arith

  pub pop_retry-waiting :
      (now : ℕ) (x : Task I) (s t : Shared I O E Q)
      → pop_retry now s ≡ done (some x) t
      → SameCounter s t × (waiting t + 1 ≡ waiting s)
  unfolding pop_retry update_next_retry
  pop_retry-waiting now x s t e =
      ground (arith, length-try_pop now s.retry_queue (try_pop now s.retry_queue).1 x)

  pub pop_retry-none :
      (now : ℕ) (s t : Shared I O E Q)
      → pop_retry now s ≡ done none t
      → SameCounter s t × (waiting t ≡ waiting s)
  unfolding pop_retry update_next_retry
  pop_retry-none now s t e =
      ground (arith, try_pop-none now s.retry_queue (try_pop now s.retry_queue).1)

  pub try_send_msg-cases :
      (tx : ℕ) (o : Outcome I O E) (s : Shared I O E Q)
      → (try_send_msg tx o s ≡ done none (record s { channels = sent_on tx o s }))
        ⊎ (try_send_msg tx o s ≡ done (some o) s)
  unfolding try_send_msg sent_on
  try_send_msg-cases tx o s = elim (Bool-cases (s.channels tx).connected) [
    | inl e ↦ inl (rw e)
    | inr e ↦ inr (rw e)
  ]

  pub send_or_store_outcome-waiting :
      (o : Outcome I O E) (tx : Option ℕ) (s t : Shared I O E Q)
      → send_or_store_outcome o tx s ≡ done tt t
      → SameCounter s t × (waiting t ≡ waiting s)
  unfolding send_or_store_outcome deliver add_outcome
  send_or_store_outcome-waiting o none s t e = ground arith
  send_or_store_outcome-waiting o (some tx) s t e = ground (arith, try_send_msg-cases tx o s)

  pub retry_delay-cases :
      (ctx : Context) (s : Shared I O E Q)
      → ((d : ℕ) × (retry_delay ctx s ≡ done d s)) ⊎ (retry_delay ctx s ≡ panicked s)
  unfolding retry_delay
  retry_delay-cases ctx s = elim (Option-cases (get_option s.config.retry_factor)) [
    | inl e ↦ inl (0, rw (e, retry_delay))
    | inr (f, e) ↦ elim (Option-cases (checked_sub ctx.attempt 1)) [
      | inl none_left ↦ inr (ground arith)
      | inr (k, e') ↦ elim (Option-cases (checked_pow_two k)) [
        | inl over ↦ inr (rw (e, e', over, retry_delay))
        | inr (m, e'') ↦ inl (saturating_mul f m, rw (e, e', e'', retry_delay))
      ]
    ]
  ]
