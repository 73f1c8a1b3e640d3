-- ===== src/Tests/Tasks.antt =====
-- Tasks that are submitted, settled and retried.
use procpool.Common.{ℕ, ◌≡◌, refl, [], ◌∷◌, ◌++◌, none, some, err, done, panicked, arith, ◌+◌, true}
use procpool.Common.Maps.{get}
use procpool.Atomic.{get_option}
use procpool.Bee.{Context, retryable, hive_suspended, inc_attempt}
use procpool.Counter
use procpool.Delay.{push, new_delayed}
use procpool.Hive.Submit.{send_batch, send_one}
use procpool.Hive.Submit.Each.{Accepts}
use procpool.Hive.Submit.Poisoned.{send_one-poisoned}
use procpool.Hive.Submit.Batch.{submitted, send_batch-all, send_batch-short}
use procpool.Hive.Thread.{settle}
use procpool.Hive.Thread.Fate.{Fate, settle-Fate}
use procpool.Pool.Counts.{Counts}
use procpool.Shared.{Shared}
use procpool.Shared.Retry.{
  can_retry, queue_retry, retry_delay, push_retry, update_next_retry, updated_next_retry,
}
use procpool.Shared.Retry.Backoff.{retry_delay-backoff}
use procpool.Shared.Tasks.{new_task}
use procpool.Shared.Teardown.Drain.{live, sent_to, stored_at}
use procpool.Tests.Samples.{config, channels, task_of, three_queued, three_queued-Counts}

send_batch-all_example :
    send_batch 1 (20 ∷ 21 ∷ []) none three_queued
    ≡ done
        (3 ∷ 4 ∷ [])
        (submitted three_queued 3 0 2 5 (task_of 20 3 none ∷ task_of 21 4 none ∷ []))
send_batch-all_example =
    send_batch-all 1 (20 ∷ 21 ∷ []) none 3 0 three_queued three_queued-Counts refl (omega arith)
      (omega arith) (omega arith)

send_batch-short_example :
    send_batch 2 (20 ∷ []) none three_queued
    ≡ panicked (submitted three_queued 3 0 2 5 (task_of 20 3 none ∷ []))
send_batch-short_example =
    send_batch-short 2 (20 ∷ []) none 3 0 three_queued three_queued-Counts refl (omega arith)
      (omega arith) (omega arith)

abbrev first_try : Context
first_try = record { index = 0; cancelled = hive_suspended; attempt = 1 }

abbrev retried : Shared ℕ ℕ ℕ ℕ
retried = record three_queued {
  num_tasks = 4;
  retry_queue =
      record {
        value = record (task_of 10 0 none) { ctx = record first_try { attempt = 2 } };
        until = 40;
      }
      ∷ three_queued.retry_queue;
  next_retry = some 40;
}

retries : settle 20 first_try none (err (retryable 10 99)) three_queued ≡ done tt retried
unfolding settle can_retry queue_retry retry_delay push_retry update_next_retry updated_next_retry
    push new_delayed new_task inc_attempt get_option Counter.increment_left
retries = refl

settle-Fate_example : Fate first_try none three_queued retried (err (retryable 10 99))
settle-Fate_example =
    settle-Fate 20 first_try none (err (retryable 10 99)) three_queued retried retries

factor_set : get_option config.retry_factor ≡ some 10
unfolding get_option
factor_set = refl

retry_delay-backoff_example :
    retry_delay (record first_try { attempt = 3 }) three_queued ≡ done 40 three_queued
retry_delay-backoff_example =
    retry_delay-backoff (record first_try { attempt = 3 }) 10 three_queued factor_set (omega arith)

three_queued-Accepts : Accepts 2 3 0 three_queued
three_queued-Accepts = record {
  counts = three_queued-Counts;
  alive = refl;
  fits = omega arith;
  wide = omega arith;
}

-- Running sums.
abbrev summed : ℕ → ℕ → ℕ × ℕ
summed acc item = (acc + item, acc + item)

abbrev dead_hive : Shared ℕ ℕ ℕ ℕ
dead_hive = record three_queued { poisoned = true }

dead_hive-Counts : Counts dead_hive 3 0
dead_hive-Counts = record { word = refl; queued_fits = omega arith; active_fits = omega arith }

send_one-poisoned_example :
    (t : Shared ℕ ℕ ℕ ℕ) × (send_one 9 (some 1) dead_hive ≡ done 3 t)
    × (t.task_rx ≡ dead_hive.task_rx)
    × (t.num_tasks ≡ 4)
    × ((c : ℕ)
        → (t.channels c).sent
          ≡ (channels c).sent ++ sent_to (live dead_hive) c (task_of 9 3 (some 1) ∷ []))
    × ((i : ℕ)
        → get i t.outcomes ≡ stored_at (live dead_hive) i (task_of 9 3 (some 1) ∷ []) (get i []))
send_one-poisoned_example =
    send_one-poisoned 9 (some 1) 3 0 dead_hive dead_hive-Counts refl (omega arith) (omega arith)
