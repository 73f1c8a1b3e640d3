-- ===== src/Tests/Gates.antt =====
-- A thread that sleeps at a gate, a closure that fails, and a round of a thread without retries.
use procpool.Common.{ℕ, ◌<◌, ◌≡◌, refl, [], ◌∷◌, none, some, true, false, arith}
use procpool.Gate.{
  Gate, move, seen, entering, locked, checked, blocked, fresh, Reach, start, later, checks, loads,
  locks, tests_on, sleeps, falls,
}
use procpool.Gate.Wakeup.{sleeper-Reach}
use procpool.Shared.{Shared}
use procpool.Shared.Plain.{next_task_plain}
use procpool.Shared.Plain.Laws.{next_task-next_task_plain}
use procpool.Shared.Queue.{next_task}
use procpool.Tests.Samples.{config, channels, task_of}

-- The thread 0 sleeps in the phase 0, and the condition has become false.
abbrev asleep : Gate
asleep = record (fresh true) {
  condition = false;
  waiters =
      (move 0 (blocked 0)
        (record (move 0 (checked 0)
          (record (move 0 (locked 0) (move 0 (entering 0) (move 0 seen (fresh true)))) {
            holder = some 0;
          })) { holder = some 0 })).waiters;
  owed = 1;
}

sleeping : Reach true (fresh true) asleep
sleeping =
    later
      (later
        (later
          (later (later (later start (checks 0 refl refl)) (loads 0 refl)) (locks 0 0 refl refl))
          (tests_on 0 0 refl refl))
        (sleeps 0 0 refl))
      falls

sleeper-Reach_example : 0 < asleep.owed
sleeper-Reach_example = sleeper-Reach sleeping 0 0 refl refl

abbrev one_queued : Shared ℕ ℕ ℕ ℕ
one_queued = record {
  config = config;
  queen = 0;
  task_rx = task_of 10 0 none ∷ [];
  num_tasks = 1;
  next_task_index = 1;
  num_panics = 0;
  num_referrers = 1;
  poisoned = false;
  suspended = false;
  outcomes = [];
  retry_queue = [];
  next_retry = none;
  channels = channels;
}

next_task-next_task_plain_example : next_task 5 false one_queued ≡ next_task_plain false one_queued
next_task-next_task_plain_example =
    next_task-next_task_plain 5 1 0 false one_queued refl
      (record { word = refl; queued_fits = omega arith; active_fits = omega arith }) (omega arith)
      (omega arith)
