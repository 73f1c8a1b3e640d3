-- ===== src/Tests/Hives.antt =====
-- A hive with two threads, on the run of one task: it is sent, received and made active.
use procpool.Common.{
  ℕ, ◌+◌, ◌≡◌, ◌↔◌, ◌⊎◌, ◌≤◌, refl, List, [], ◌∷◌, none, some, true, false, ok, done, panicked,
  arith, err, if◌then◌else◌, ◌==◌,
}
use procpool.Atomic.{AtomicOption, get_option}
use procpool.Bee.{hive_suspended, retryable}
use procpool.Common.Maps.{insert}
use procpool.Config.{Config}
use procpool.Counter
use procpool.Delay.Laws.{NotBefore}
use procpool.Hive.{join_waits}
use procpool.Hive.Submit.{send_task}
use procpool.Hive.Thread.{exit_thread, settle}
use procpool.Outcome.{success, index, from_worker_result}
use procpool.Pool.{
  System, Step, Reach, init, start, later, prepares, receives, activates, settles, finishes,
}
use procpool.Pool.Invariant.{queued, active}
use procpool.Pool.Join.{num_tasks-Reach, join_waits-Reach, activate-Reach, exit_thread-Reach}
use procpool.Pool.Occurs.{occurs}
use procpool.Pool.Works.{Serves}
use procpool.Pool.Progress.{drains}
use procpool.Pool.Notify.{join_waits-NotifiesOrSuspends}
use procpool.Pool.Once.{join-once}
use procpool.Pool.Retries.{pop_retry-Reach}
use procpool.Shared
use procpool.Shared.{
  finish_task_notifying, join_gate, Task, Channel, Shared, num_tasks, finish_task, has_work,
}
use procpool.Shared.Queue.{ends, receive, activate, pop_retry}
use procpool.Shared.Tasks.{prepare_task, send_or_store_outcome, deliver, add_outcome}

abbrev pub config : Config
config = record {
  num_threads = AtomicOption.sync (some 2);
  thread_name = AtomicOption.sync none;
  thread_stack_size = AtomicOption.sync none;
  max_retries = AtomicOption.sync (some 3);
  retry_factor = AtomicOption.sync (some 10);
  affinity = AtomicOption.sync none;
}

abbrev pub channels : ℕ → Channel ℕ ℕ ℕ
channels c = record { connected = true; sent = [] }

abbrev pub task : Task ℕ
task = record {
  input = 7;
  ctx = record { index = 0; cancelled = hive_suspended; attempt = 0 };
  outcome_tx = none;
}

-- The shared state with this word in the counter, this next index and these tasks in the queue.
abbrev at : ℕ → ℕ → List (Task ℕ) → Shared ℕ ℕ ℕ ℕ
at word next tasks = record {
  config = config;
  queen = 0;
  task_rx = tasks;
  num_tasks = word;
  next_task_index = next;
  num_panics = 0;
  num_referrers = 1;
  poisoned = false;
  suspended = false;
  outcomes = [];
  retry_queue = [];
  next_retry = none;
  channels = channels;
}

abbrev pub received_one : System ℕ ℕ ℕ ℕ
received_one = record {
  shared = at 1 1 [];
  reserved = [];
  prepared = [];
  received = task ∷ [];
  running = [];
  finishing = 0;
  created = 0 ∷ [];
  delivered = [];
  lost = [];
}

abbrev pub running_one : System ℕ ℕ ℕ ℕ
running_one = record {
  shared = at 281474976710656 1 [];
  reserved = [];
  prepared = [];
  received = [];
  running = task ∷ [];
  finishing = 0;
  created = 0 ∷ [];
  delivered = [];
  lost = [];
}

receiving : Reach 2 (init config 0 channels) received_one
unfolding Shared.new prepare_task send_task receive
receiving =
    later (later (later start (prepares 7 none task refl)) (Step.sends [] [] task 0 refl refl))
      (receives task (omega arith) refl)

pub running : Reach 2 (init config 0 channels) running_one
unfolding activate
running = later receiving (activates [] [] task refl refl)

-- After the task is done, with its outcome in the hive.
abbrev done_one : System ℕ ℕ ℕ ℕ
done_one = record {
  shared = record (at 0 1 []) { outcomes = (0, success 5 0) ∷ [] };
  reserved = [];
  prepared = [];
  received = [];
  running = [];
  finishing = 0;
  created = 0 ∷ [];
  delivered = 0 ∷ [];
  lost = [];
}

-- Before the thread that ran it has finished it.
abbrev pub settled_one : System ℕ ℕ ℕ ℕ
settled_one = record done_one {
  shared = record done_one.shared { num_tasks = 281474976710656 };
  finishing = 1;
}

pub settled : Reach 2 (init config 0 channels) settled_one
unfolding settle send_or_store_outcome deliver add_outcome insert from_worker_result index
settled = later running (settles 0 [] [] task (ok 5) refl refl)

finishing : Step 2 settled_one done_one
unfolding finish_task Counter.decrement_right
finishing = finishes false (omega arith) refl

finished : Reach 2 (init config 0 channels) done_one
finished = later settled finishing

idle : join_waits done_one.shared ≡ false
unfolding join_waits has_work num_tasks
idle = refl

join-once_example : occurs 0 done_one.delivered + occurs 0 done_one.lost ≡ 1
join-once_example =
    join-once (omega arith) config 0 channels done_one finished 0 refl idle (omega arith)
      (omega arith)

num_tasks-Reach_example : (num_tasks running_one.shared ≡ (0, 1)) × (1 ≤ 2)
num_tasks-Reach_example = num_tasks-Reach (omega arith) config 0 channels running_one running

join_waits-Reach_example : (join_waits running_one.shared ≡ false) ↔ (
    (active running_one ≡ 0) × ((running_one.shared.suspended ≡ true) ⊎ (queued running_one ≡ 0)))
join_waits-Reach_example = join_waits-Reach (omega arith) config 0 channels running_one running

activate-Reach_example :
    activate (ends (ok task)) received_one.shared ≡ done (ends (ok task)) (at 281474976710656 1 [])
activate-Reach_example =
    activate-Reach (omega arith) config 0 channels received_one receiving [] [] task refl

exit_thread-Reach_example :
    exit_thread received_one.shared ≡ panicked (at 18446462598732840961 1 [])
exit_thread-Reach_example = exit_thread-Reach (omega arith) config 0 channels received_one receiving

no_retry : pop_retry 5 received_one.shared ≡ done none received_one.shared
unfolding pop_retry
no_retry = refl

pop_retry-Reach_example : NotBefore 6 received_one.shared.retry_queue
pop_retry-Reach_example =
    pop_retry-Reach 2 config 0 channels received_one receiving 5 received_one.shared no_retry

-- Workers that add one at the second attempt.
drains_example :
    (t : System ℕ ℕ ℕ ℕ) × Serves
      (λ v a. if a == 0 then err (retryable v 5) else ok (v + 1))
      2
      received_one
      t
    × (join_waits t.shared ≡ false)
    × (t.shared.suspended ≡ false)
unfolding get_option
drains_example =
    drains (λ v a. if a == 0 then err (retryable v 5) else ok (v + 1)) (omega arith) (omega arith)
      config 0 channels received_one receiving refl refl (omega arith) (omega arith)

-- The last task is finished, and the gate of `join` is notified.
join_waits-NotifiesOrSuspends_example :
    finish_task_notifying false settled_one.shared ≡ done (join_gate ∷ []) done_one.shared
unfolding finishing join_waits has_work num_tasks
join_waits-NotifiesOrSuspends_example =
    join_waits-NotifiesOrSuspends (omega arith) config 0 channels settled_one done_one settled
      finishing refl idle
