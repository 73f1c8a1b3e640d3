-- ===== src/Tests/Closings.antt =====
-- The last handle of a hive is dropped while it runs one task; and a hive that is resumed.
use procpool.Common.{
  ℕ, ◌≤◌, ◌+◌, ◌≡◌, refl, [], ◌∷◌, none, true, false, ok, err, done, arith, state_after, ◌>>◌,
}
use procpool.Bee.{retryable, cancelled}
use procpool.Common.Maps.{insert}
use procpool.Counter
use procpool.Hive.{drop}
use procpool.Hive.Submit.{resume_into}
use procpool.Hive.Submit.Batch.{batch_tasks}
use procpool.Hive.Thread.{settle, exit_thread, drop_sentinel}
use procpool.Outcome.{success, unprocessed, index, from_worker_result, is_unprocessed}
use procpool.Outcome.Store.{entries_with, unprocessed_input}
use procpool.Outcome.Store.Removal.{IsStore, without}
use procpool.Outcome.Store.View.{view}
use procpool.Pool.{System, Reach, init, later}
use procpool.Pool
use procpool.Pool.Closing.{
  Closing, Others, Closes, poisoned, nothing, retries, tasks_drained, retries_drained, settles,
  starts, goes_on,
}
use procpool.Pool.Closing.Drop.{drop-Closes}
use procpool.Pool.Closing.Ends.{steps_of, steps_left, Closes-ends}
use procpool.Pool.Closing.Waits.{poisoned-suspended}
use procpool.Pool.Closing.Stranded.{drop-once, settle-stranded}
use procpool.Pool.Occurs.{occurs, occurs_retries}
use procpool.Pool.Resumed.{ClientRun, resume_into-Reach}
use procpool.Pool.Stored.{Stored, outcomes-Reach}
use procpool.Pool.StoredOrder.{settle-order}
use procpool.Counter.{right_overflow}
use procpool.Shared.{Shared, set_suspended, finish_task}
use procpool.Shared.Queue.{activate, ends, invalid_counter}
use procpool.Shared.Retry.{can_retry, retry_delay, queue_retry, push_retry, update_next_retry}
use procpool.Shared.Tasks.{send_or_store_outcome, deliver, add_outcome}
use procpool.Tests.Hives.{config, channels, task, running_one, running, settled_one, received_one}
use procpool.Tests.Samples.{three_queued, task_of}

-- No other thread, and another thread at the start of its loop.
abbrev none_other : Others
none_other = record { looking = 0; returning = 0; leaving = 0; unwinding = 0 }

abbrev one_returning : Others
one_returning = record { looking = 0; returning = 1; leaving = 0; unwinding = 0 }

-- Nothing is queued, and no thread looks for a task.
abbrev drained_one : Closing ℕ ℕ ℕ ℕ
drained_one = record (poisoned none_other running_one) { phase = nothing }

draining : Closes (poisoned none_other running_one) drained_one
draining = goes_on (goes_on starts (tasks_drained refl refl)) (retries_drained refl refl)

abbrev closed_one : Closing ℕ ℕ ℕ ℕ
closed_one = record drained_one {
  shared = record drained_one.shared { outcomes = (0, success 5 0) ∷ [] };
  running = [];
  finishing = 1;
  delivered = 0 ∷ [];
}

closed : Closes (poisoned none_other running_one) closed_one
unfolding settle send_or_store_outcome deliver add_outcome insert from_worker_result index
closed = goes_on draining (settles 0 [] [] task (ok 5) refl refl)

drop-once_example :
    occurs 0 closed_one.delivered
      + occurs 0 closed_one.lost
      + occurs 0 closed_one.refused
      + occurs_retries 0 closed_one.shared.retry_queue
    ≡ 1
drop-once_example =
    drop-once config 0 channels running_one running refl refl none_other (omega arith) closed_one
      closed
      (record { drained = refl; none_looking = refl; none_received = refl; none_running = refl }) 0
      (omega arith)

Closes-ends_example :
    steps_of closed + steps_left closed_one ≤ steps_left (poisoned none_other running_one)
Closes-ends_example = Closes-ends (poisoned none_other running_one) closed_one closed

-- The task is tried again instead.
abbrev retried_one : Closing ℕ ℕ ℕ ℕ
retried_one = record drained_one {
  shared = state_after (settle 3 task.ctx none (err (retryable 7 5)) drained_one.shared);
  running = [];
  finishing = 1;
}

settle-stranded_example :
    (occurs_retries 0 retried_one.shared.retry_queue ≡ 1)
    × (occurs 0 retried_one.delivered ≡ 0)
    × (occurs 0 retried_one.lost ≡ 0)
unfolding settle queue_retry push_retry update_next_retry can_retry retry_delay
    Counter.increment_left
settle-stranded_example =
    settle-stranded config 0 channels running_one running refl refl none_other (omega arith)
      drained_one draining (record { drained = refl; none_looking = refl }) 3 [] [] task 7 5
      retried_one.shared refl refl refl retried_one starts

-- Two queued tasks and one to be tried again.
abbrev queued_three : System ℕ ℕ ℕ ℕ
queued_three = record (init config 0 channels) { shared = three_queued }

drop-Closes_example :
    (c : Closing ℕ ℕ ℕ ℕ) × (drop three_queued ≡ done tt c.shared)
    × Closes (poisoned none_other queued_three) c
    × (c.phase ≡ nothing)
drop-Closes_example = drop-Closes none_other queued_three refl

-- The worker has given the task up, its input is stored, and the hive is suspended.
abbrev suspended_one : System ℕ ℕ ℕ ℕ
suspended_one = record settled_one {
  shared = record settled_one.shared { suspended = true; outcomes = (0, unprocessed 7 0) ∷ [] };
}

suspended : Reach 2 (init config 0 channels) suspended_one
unfolding settle send_or_store_outcome deliver add_outcome insert from_worker_result index
    set_suspended
suspended =
    later (later running (Pool.settles 0 [] [] task (err (cancelled 7)) refl refl))
      (Pool.suspends true true refl)

resume_into-Reach_example :
    (t : System ℕ ℕ ℕ ℕ) × (resume_into none suspended_one.shared ≡ done (1 ∷ []) t.shared)
    × ClientRun 2 suspended_one t
    × Reach 2 (init config 0 channels) t
    × (t.created ≡ 1 ∷ 0 ∷ [])
    × (t.shared.suspended ≡ false)
    × (t.shared.outcomes ≡ [])
    × (t.shared.task_rx ≡ batch_tasks none 1 (7 ∷ []))
unfolding entries_with unprocessed_input without is_unprocessed index
resume_into-Reach_example =
    resume_into-Reach (omega arith) config 0 channels suspended_one suspended none refl
      (omega arith) (omega arith)

outcomes-Reach_example : Stored suspended_one
outcomes-Reach_example = outcomes-Reach config 0 channels suspended_one suspended

settle-order_example :
    (t : Shared ℕ ℕ ℕ ℕ) × (u : Shared ℕ ℕ ℕ ℕ) × ((do
      settle 3 (task_of 7 0 none).ctx none (ok 5)
      settle 4 (task_of 8 1 none).ctx none (err (cancelled 8)))
        running_one.shared
      ≡ done tt t)
    × ((do
      settle 4 (task_of 8 1 none).ctx none (err (cancelled 8))
      settle 3 (task_of 7 0 none).ctx none (ok 5))
          running_one.shared
        ≡ done tt u)
    × (v : IsStore t.outcomes) × (v' : IsStore u.outcomes) × (view t.outcomes v
        ≡ view u.outcomes v')
settle-order_example =
    settle-order config 0 channels running_one running 3 4 (task_of 7 0 none).ctx
      (task_of 8 1 none).ctx (ok 5) (err (cancelled 8)) (λ e. ground arith) refl refl

-- The other thread has not moved while the queue of tasks was drained.
abbrev asleep_one : Closing ℕ ℕ ℕ ℕ
asleep_one = record (poisoned one_returning suspended_one) { phase = retries }

poisoned-suspended_example :
    (asleep_one.shared.suspended ≡ true) × (one_returning.returning ≤ asleep_one.returning)
poisoned-suspended_example =
    poisoned-suspended one_returning suspended_one refl asleep_one
      (goes_on starts (tasks_drained refl refl))

-- A thread leaves while no task is active, and a task that another thread has received is refused.
refused_after_exit :
    (t : Shared ℕ ℕ ℕ ℕ) × (activate
        (ends (ok task))
        (state_after (exit_thread received_one.shared))
      ≡ done (ends (err (invalid_counter right_overflow))) t)
unfolding exit_thread drop_sentinel finish_task activate Counter.decrement_right Counter.transfer
refused_after_exit = (_, refl)
