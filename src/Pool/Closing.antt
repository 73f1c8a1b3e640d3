-- ===== src/Pool/Closing.antt =====
-- The end of a hive whose last handle is dropped (src/hive/hive.rs, `drop` and `spawn`, and
-- src/hive/shared.rs, `poison` and `next_task`), as interleaved steps: the dropping thread has set the
-- flag and drains the two queues, and the worker threads leave their loops when they look at the flag,
-- each with a call of `finish_task` by its sentinel. A thread that looked at the flag just before it was
-- set goes on to take a task. A panic of `finish_task` in a thread that unwinds already is no step: it
-- aborts the process.
pub mod Leaves
pub mod Once
pub mod Emptied
pub mod Stranded
pub mod Ends
pub mod Waits
pub mod Drop
use procpool.Common.{
  ℕ, ◌+◌, ◌-◌, ◌<◌, ◌≡◌, List, [], ◌∷◌, ◌++◌, Option, none, some, Bool, true, false, not, ok, done,
  if◌then◌else◌, err, panicked, state_after,
}
use procpool.Bee.{WorkerResult, inc_attempt}
use procpool.Counter.{CounterError}
use procpool.Delay.{Delayed, DelayQueue}
use procpool.Hive.Thread.{settle, exit_thread}
use procpool.Pool.{System, is_requeued}
use procpool.Shared.{Task, Shared, finish_task}
use procpool.Shared.Queue.{ends, disconnected, invalid_counter, pop_retry, receive, activate}
use procpool.Shared.Retry.{can_retry, retry_delay}
use procpool.Shared.Tasks.{send_or_store_task}

-- What the dropping thread drains.
pub data Phase : Type 0 where
  tasks retries nothing : Phase

pub record Closing {ℓ} (I O E Q : Type ℓ) : Type ℓ where
  pub shared : Shared I O E Q
  pub phase : Phase
  pub looking : ℕ  -- threads that found the flag not set, and have not taken a task
  pub returning : ℕ  -- threads at the start of the loop: at the resume gate, or before the flag
  pub leaving : ℕ  -- threads whose loop has ended, with the sentinel still to be dropped
  pub received : List (Task I)
  pub running : List (Task I)
  pub finishing : ℕ  -- threads that have settled their task
  pub unwinding : ℕ  -- threads that panicked, with the sentinel still to be dropped
  pub delivered : List ℕ
  pub lost : List ℕ
  pub refused : List ℕ  -- indices of the tasks that were dropped since the counter refused them

-- The threads that have no task, when the last handle is dropped, and how many of those with a task to
-- finish have panicked.
pub record Others : Type 0 where
  pub looking : ℕ
  pub returning : ℕ
  pub leaving : ℕ
  pub unwinding : ℕ

module _ {ℓ} {I O E Q : Type ℓ} where
  -- The last handle is dropped: the flag is set.
  abbrev pub poisoned : Others → System I O E Q → Closing I O E Q
  poisoned others s = record {
    shared = record s.shared { num_referrers = 0; poisoned = true };
    phase = tasks;
    looking = others.looking;
    returning = others.returning;
    leaving = others.leaving;
    received = s.received;
    running = s.running;
    finishing = s.finishing - others.unwinding;
    unwinding = others.unwinding;
    delivered = s.delivered;
    lost = s.lost;
    refused = [];
  }

  pub data Step (s : Closing I O E Q) : Closing I O E Q → Type (ℓ + 1) where
    drains_task :
        {t : Shared I O E Q} (x : Task I) (xs : List (Task I))
        → s.phase ≡ tasks
        → s.shared.task_rx ≡ x ∷ xs
        → send_or_store_task x (record s.shared { task_rx = xs }) ≡ done tt t
        → Step s (record s { shared = t; delivered = x.ctx.index ∷ s.delivered })
    tasks_drained : s.phase ≡ tasks → s.shared.task_rx ≡ [] → Step s (record s { phase = retries })
    drains_retry :
        {t : Shared I O E Q} (d : Delayed (Task I)) (q : DelayQueue (Task I))
        → s.phase ≡ retries
        → s.shared.retry_queue ≡ d ∷ q
        → send_or_store_task d.value (record s.shared { retry_queue = q }) ≡ done tt t
        → Step s (record s { shared = t; delivered = d.value.ctx.index ∷ s.delivered })
    retries_drained :
        s.phase ≡ retries → s.shared.retry_queue ≡ [] → Step s (record s { phase = nothing })
    pops :
        {t : Shared I O E Q} (now : ℕ) (x : Task I)
        → 0 < s.looking
        → pop_retry now s.shared ≡ done (some x) t
        → Step s (record s { shared = t; looking = s.looking - 1; received = x ∷ s.received })
    receives :
        {t : Shared I O E Q} (hung_up : Bool) (x : Task I)
        → 0 < s.looking
        → receive hung_up s.shared ≡ done (ends (ok x)) t
        → Step s (record s { shared = t; looking = s.looking - 1; received = x ∷ s.received })
    times_out :
        0 < s.looking → Step s (record s { looking = s.looking - 1; returning = s.returning + 1 })
    hangs_up :
        {t : Shared I O E Q}
        → 0 < s.looking
        → receive true s.shared ≡ done (ends (err disconnected)) t
        → Step s (record s { shared = t; looking = s.looking - 1; leaving = s.leaving + 1 })
    sees_flag :
        0 < s.returning
        → s.shared.suspended ≡ false
        → Step s (record s { returning = s.returning - 1; leaving = s.leaving + 1 })
    exits :
        0 < s.leaving
        → Step s (record s { shared = state_after (exit_thread s.shared); leaving = s.leaving - 1 })
    activates :
        {t : Shared I O E Q} (pre post : List (Task I)) (x : Task I)
        → s.received ≡ pre ++ x ∷ post
        → activate (ends (ok x)) s.shared ≡ done (ends (ok x)) t
        → Step s (record s { shared = t; received = pre ++ post; running = x ∷ s.running })
    refuses :
        {t : Shared I O E Q} (pre post : List (Task I)) (x : Task I) (error : CounterError)
        → s.received ≡ pre ++ x ∷ post
        → activate (ends (ok x)) s.shared ≡ done (ends (err (invalid_counter error))) t
        → Step s (record s {
          shared = t;
          received = pre ++ post;
          leaving = s.leaving + 1;
          refused = x.ctx.index ∷ s.refused;
        })
    settles :
        {t : Shared I O E Q} (now : ℕ) (pre post : List (Task I)) (x : Task I)
        (result : WorkerResult I O E)
        → s.running ≡ pre ++ x ∷ post
        → settle now x.ctx x.outcome_tx result s.shared ≡ done tt t
        → Step s (record s {
          shared = t;
          running = pre ++ post;
          finishing = s.finishing + 1;
          delivered =
              if is_requeued x.ctx result s.shared then s.delivered else x.ctx.index ∷ s.delivered;
        })
    unwinds :
        (pre post : List (Task I)) (x : Task I)
        → s.running ≡ pre ++ x ∷ post
        → Step s (record s {
          running = pre ++ post;
          unwinding = s.unwinding + 1;
          lost = x.ctx.index ∷ s.lost;
        })
    retry_panics :
        (pre post : List (Task I)) (x : Task I) (input : I) (error : E)
        → s.running ≡ pre ++ x ∷ post
        → can_retry x.ctx s.shared ≡ true
        → retry_delay (inc_attempt x.ctx) s.shared ≡ panicked s.shared
        → Step s (record s {
          running = pre ++ post;
          unwinding = s.unwinding + 1;
          lost = x.ctx.index ∷ s.lost;
        })
    finishes :
        {t : Shared I O E Q}
        → 0 < s.finishing
        → finish_task false s.shared ≡ done tt t
        → Step s (record s { shared = t; finishing = s.finishing - 1; returning = s.returning + 1 })
    finish_panics :
        {t : Shared I O E Q}
        → 0 < s.finishing
        → finish_task false s.shared ≡ panicked t
        → Step s (record s { shared = t; finishing = s.finishing - 1; unwinding = s.unwinding + 1 })
    unwound :
        {t : Shared I O E Q}
        → 0 < s.unwinding
        → finish_task true s.shared ≡ done tt t
        → Step s (record s { shared = t; unwinding = s.unwinding - 1 })

  pub data Closes (first : Closing I O E Q) : Closing I O E Q → Type (ℓ + 1) where
    starts : Closes first first
    goes_on : {s t : Closing I O E Q} → Closes first s → Step s t → Closes first t

  -- Both queues were drained, and no thread has a task that is not settled, or looks for one.
  pub record AtRest (s : Closing I O E Q) : Type ℓ where
    pub drained : s.phase ≡ nothing
    pub none_looking : s.looking ≡ 0
    pub none_received : s.received ≡ []
    pub none_running : s.running ≡ []
