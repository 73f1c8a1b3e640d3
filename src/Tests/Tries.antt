-- ===== src/Tests/Tries.antt =====
-- src/util.rs and src/hive/hive.rs: runs in which a task is tried again.
use procpool.Common.{
  ℕ, ◌+◌, ◌≡◌, refl, [], ◌∷◌, some, true, false, ok, err, arith, ◌==◌, if◌then◌else◌, get_elem?,
}
use mathlib.Core.Option
use procpool.Bee.{Context, returned, WorkerResult, retryable, inc_attempt}
use procpool.Bee.Queen.{CloneQueen, clone_queen}
use procpool.Bee.Stock.{Callable, Closure, of, apply_retry}
use procpool.Builder
use procpool.Common.Maps.{get}
use procpool.Config.{Config, into_sync_config, set_max_retries}
use procpool.Counter
use procpool.Delay.{push, try_pop, new_delayed}
use procpool.Hive.{join_waits}
use procpool.Hive.Submit.{send_task}
use procpool.Hive.Thread.{settle}
use procpool.Outcome.{success, from_worker_result}
use procpool.Outcome.Store.{Outcomes}
use procpool.Pool.{System, Step, init, receives, pops, activates, settles, finishes}
use procpool.Pool.Mapped.{MapRun, opens, submits, works}
use procpool.Pool.Mapped.Tries.{last_result}
use procpool.Pool.Mapped.Total.{map-drains}
use procpool.Pool.Works.{Works}
use procpool.Atomic.{get_option}
use procpool.Shared
use procpool.Shared.{Task, Shared, Channel, finish_task, has_work, num_tasks}
use procpool.Shared.Queue.{pop_retry, receive, activate}
use procpool.Shared.Retry.{can_retry, queue_retry, push_retry, update_next_retry, retry_delay}
use procpool.Shared.Tasks.{
  new_task, prepare_task, send_or_store_outcome, deliver, try_send_msg, sent_on,
}
use procpool.Tests.Samples.{config, task_of}
use procpool.Util.{try_map_retryable}
use procpool.Util.Tries.{RetryCalls, retry_config, try_map_retryable-all}

abbrev open_channels : ℕ → Channel ℕ ℕ ℕ
open_channels c = record { connected = true; sent = [] }

-- It is tried again once, with a larger input.
abbrev second_try : ℕ → ℕ → WorkerResult ℕ ℕ ℕ
second_try v a = if a == 0 then err (retryable (v + 10) v) else ok (v + a)

abbrev second_time : Closure ℕ (ℕ × Context) (WorkerResult ℕ ℕ ℕ)
second_time = record {
  code = λ n call. (n, returned (second_try call.0 call.1.attempt));
  captured = 0;
}

abbrev caller : CloneQueen (Callable (Closure ℕ (ℕ × Context) (WorkerResult ℕ ℕ ℕ)))
caller = clone_queen (of second_time)

abbrev once_more : Config
once_more = retry_config config 1 1

abbrev task : Task ℕ
task = task_of 7 0 (some 0)

abbrev task_again : Task ℕ
task_again = record task { input = 17; ctx = record task.ctx { attempt = 1 } }

abbrev begun : System ℕ ℕ ℕ (CloneQueen (Callable (Closure ℕ (ℕ × Context) (WorkerResult ℕ ℕ ℕ))))
begun = init once_more caller open_channels

abbrev ended : System ℕ ℕ ℕ (CloneQueen (Callable (Closure ℕ (ℕ × Context) (WorkerResult ℕ ℕ ℕ))))
ended = record begun {
  shared = record begun.shared {
    next_task_index = 1;
    channels = sent_on 0 (success 18 0) begun.shared;
  };
  created = 0 ∷ [];
  delivered = 0 ∷ [];
}

-- The task waits for its second try.
abbrev waiting_again :
    System ℕ ℕ ℕ (CloneQueen (Callable (Closure ℕ (ℕ × Context) (WorkerResult ℕ ℕ ℕ))))
waiting_again = record begun {
  shared = record begun.shared {
    next_task_index = 1;
    num_tasks = 1;
    retry_queue = record { value = task_again; until = 10 } ∷ [];
    next_retry = some 10;
  };
  created = 0 ∷ [];
}

first_run : MapRun (RetryCalls second_time) 0 1 begun (7 ∷ []) waiting_again
unfolding Shared.new Counter.default prepare_task send_task receive activate settle can_retry
    queue_retry push_retry update_next_retry retry_delay push new_delayed new_task inc_attempt
    pop_retry try_pop send_or_store_outcome deliver try_send_msg sent_on from_worker_result
    finish_task apply_retry of into_sync_config Builder.max_retries Builder.num_threads
    Builder.default set_max_retries
first_run =
    works
      (works
        (works
          (works (works (submits 7 task opens refl) (Step.sends [] [] task 0 refl refl) tt)
            (receives task (omega arith) refl) tt)
          (activates [] [] task refl refl) tt)
        (settles 0 [] [] task (err (retryable 17 7)) refl refl) (0, refl))
      (finishes false (omega arith) refl) tt

run : MapRun (RetryCalls second_time) 0 1 begun (7 ∷ []) ended
unfolding Shared.new Counter.default prepare_task send_task receive activate settle can_retry
    queue_retry push_retry update_next_retry retry_delay push new_delayed new_task inc_attempt
    pop_retry try_pop send_or_store_outcome deliver try_send_msg sent_on from_worker_result
    finish_task apply_retry of into_sync_config Builder.max_retries Builder.num_threads
    Builder.default set_max_retries
run =
    works
      (works
        (works (works first_run (pops 1000000000 task_again (omega arith) refl) tt)
          (activates [] [] task_again refl refl) tt)
        (settles 0 [] [] task_again (ok 18) refl refl) (0, refl))
      (finishes false (omega arith) refl) tt

ended_idle : join_waits ended.shared ≡ false
unfolding join_waits has_work num_tasks Shared.new
ended_idle = refl

try_map_retryable-all_example :
    (batch : Outcomes ℕ ℕ ℕ) × (try_map_retryable
        (λ i. true)
        config
        open_channels
        0
        (λ t. (ended.shared.channels 0).sent)
        1
        1
        (7 ∷ [])
        second_time
      ≡ some batch)
    × ((k : ℕ)
        → get k batch
          ≡ Option.map
              (λ v. from_worker_result (last_result second_try 1 v 0) k)
              (get_elem? (7 ∷ []) k))
unfolding Shared.new
try_map_retryable-all_example =
    try_map_retryable-all (λ i. true) (λ i. refl) config open_channels 0 refl refl 1 1 (omega arith)
      (omega arith) (7 ∷ []) (omega arith) second_time second_try (λ st v ctx. refl) ended run refl
      ended_idle

-- Workers as above, and two inputs.
map-drains_example :
    (s : System ℕ ℕ ℕ ℕ) × MapRun
      (Works second_try)
      0
      2
      (init config 0 open_channels)
      (7 ∷ 8 ∷ [])
      s
    × (s.shared.suspended ≡ false)
    × (join_waits s.shared ≡ false)
unfolding get_option
map-drains_example =
    map-drains second_try (Works second_try) (λ v ctx. refl) 0 (omega arith) config 0 open_channels
      (omega arith) (omega arith) (7 ∷ 8 ∷ []) (omega arith)
