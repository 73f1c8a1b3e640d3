-- ===== src/Pool/Join.antt =====
-- What the invariant of the threads gives to the operations of src/hive/shared.rs and
-- src/hive/hive.rs: `num_tasks`, `has_work` on which `join` waits, the counter's own errors, and the
-- end of a worker thread.
use procpool.Common.{
  ℕ, ◌+◌, ◌-◌, ◌%◌, ◌^◌, ◌<◌, ◌≤◌, ◌≡◌, ◌↔◌, ◌⊎◌, List, ◌∷◌, ◌++◌, length, Bool, true, false, ◌==◌,
  if◌then◌else◌, ok, done, panicked, arith, ap, ◌∙◌,
}
use procpool.Config.{Config}
use procpool.Shared.{Task, Channel, num_tasks, has_work, finish_task}
use procpool.Shared.Queue.{ends, activate}
use procpool.Hive.{join_waits}
use procpool.Hive.Thread.{exit_thread, drop_sentinel}
use procpool.Counter.Laws.{pack}
use procpool.Pool.{System, Reach, init}
use procpool.Pool.Counts.{num_tasks-Counts, decrement_word, transfer_word}
use procpool.Pool.Invariant.{Inv, Reach-Inv, length-middle, queued, active}

module _ {ℓ} {I O E Q : Type ℓ} {threads : ℕ} {s : System I O E Q} where
  module _ (i : Inv threads s) where
    num_tasks-Inv : num_tasks s.shared ≡ (queued s, active s)
    num_tasks-Inv = num_tasks-Counts i.counts

    join_waits-Inv :
        (join_waits s.shared ≡ false)
        ↔ ((active s ≡ 0) × ((s.shared.suspended ≡ true) ⊎ (queued s ≡ 0)))
    unfolding join_waits has_work
    join_waits-Inv = ground (arith, num_tasks-Inv, i.alive)

    activate-Inv :
        (threads < 2 ^ 16)
        → (pre post : List (Task I)) (x : Task I) → s.received ≡ pre ++ x ∷ post
        → activate (ends (ok x)) s.shared
          ≡ done
              (ends (ok x))
              (record s.shared { num_tasks = pack 48 (queued s - 1) (active s + 1) })
    unfolding activate
    activate-Inv small pre post x split =
        let longer : length s.received ≡ length (pre ++ post) + 1 =
          ap length split ∙ length-middle pre post x in
        ground (arith, transfer_word i.counts 1, i.room)

    finish_task-Inv :
        (panicking : Bool)
        → 0 < active s
        → finish_task panicking s.shared
          ≡ done tt (record s.shared {
            num_tasks = pack 48 (queued s) (active s - 1);
            num_panics =
                if panicking then (s.shared.num_panics + 1) % 2 ^ 64 else s.shared.num_panics;
          })
    unfolding finish_task
    finish_task-Inv panicking busy = ground (arith, decrement_word i.counts 1)

    exit_thread-Inv : exit_thread s.shared ≡ (
        if active s == 0
        then panicked (record s.shared { num_tasks = pack 48 (queued s) (2 ^ 16 - 1) })
        else done false (record s.shared { num_tasks = pack 48 (queued s) (active s - 1) }))
    unfolding exit_thread drop_sentinel finish_task
    exit_thread-Inv = ground (arith, decrement_word i.counts 1)

module _ {ℓ} {I O E Q : Type ℓ} {threads : ℕ} (small : threads < 2 ^ 16) (config : Config)
    (queen : Q) (channels : ℕ → Channel I O E) (s : System I O E Q)
    (r : Reach threads (init config queen channels) s) where
  -- In every state that the interleaved steps of a hive with less than 2^16 threads reach, `num_tasks`
  -- is exactly the number of tasks that wait in the two queues, are prepared or are received, and of
  -- indices that are reserved for a batch and have no task yet; and the number of tasks that are
  -- running or finishing. No more than `threads` tasks are active.
  pub num_tasks-Reach : (num_tasks s.shared ≡ (queued s, active s)) × (active s ≤ threads)
  num_tasks-Reach =
      let i = Reach-Inv small config queen channels s r in
      let room = i.room in (num_tasks-Inv i, omega arith)

  -- In every state that the steps of a hive with less than 2^16 threads reach, the condition on
  -- which `join` waits is false exactly when no task is running or finishing, and the hive is
  -- suspended, or has no task that is waiting, prepared or received, and no index that is reserved
  -- for a batch and has no task yet.
  pub join_waits-Reach :
      (join_waits s.shared ≡ false)
      ↔ ((active s ≡ 0) × ((s.shared.suspended ≡ true) ⊎ (queued s ≡ 0)))
  join_waits-Reach = join_waits-Inv (Reach-Inv small config queen channels s r)

  -- In every state that the steps of a hive with less than 2^16 threads reach, a task that a
  -- thread has received is made active without an error of the counter: one task goes from the
  -- queued to the active, and nothing else changes.
  pub activate-Reach :
      (pre post : List (Task I)) (x : Task I)
      → s.received ≡ pre ++ x ∷ post
      → activate (ends (ok x)) s.shared
        ≡ done (ends (ok x)) (record s.shared { num_tasks = pack 48 (queued s - 1) (active s + 1) })
  activate-Reach = activate-Inv (Reach-Inv small config queen channels s r) small

  -- In every state that the steps of a hive with less than 2^16 threads reach, and that has a
  -- running or finishing task, `finish_task` does not panic: it takes one from the active tasks,
  -- counts a panic if the thread is panicking, and changes nothing else.
  pub finish_task-Reach :
      (panicking : Bool)
      → 0 < active s
      → finish_task panicking s.shared
        ≡ done tt (record s.shared {
          num_tasks = pack 48 (queued s) (active s - 1);
          num_panics =
              if panicking then (s.shared.num_panics + 1) % 2 ^ 64 else s.shared.num_panics;
        })
  finish_task-Reach = finish_task-Inv (Reach-Inv small config queen channels s r)

  -- In every state that the steps of a hive with less than 2^16 threads reach, a worker thread
  -- that ends with its sentinel cancelled still finishes a task: with no task active it panics
  -- and leaves 2^16 - 1 active tasks in the counter, and otherwise it takes one from the active
  -- tasks, which are those of other threads.
  pub exit_thread-Reach : exit_thread s.shared ≡ (
      if active s == 0
      then panicked (record s.shared { num_tasks = pack 48 (queued s) (2 ^ 16 - 1) })
      else done false (record s.shared { num_tasks = pack 48 (queued s) (active s - 1) }))
  exit_thread-Reach = exit_thread-Inv (Reach-Inv small config queen channels s r)
