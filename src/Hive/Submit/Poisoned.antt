-- ===== src/Hive/Submit/Poisoned.antt =====
-- src/hive/hive.rs: submitting to a hive that is poisoned, and the drop that poisons it.
use procpool.Common.{ℕ, ◌+◌, ◌^◌, ◌<◌, ◌≡◌, [], ◌∷◌, ◌++◌, Option, true, done, arith}
use procpool.Common.Maps.{get}
use procpool.Bee.{hive_suspended, new_context}
use procpool.Counter.Laws.{pack}
use procpool.Hive.{drop}
use procpool.Hive.Submit.{send_one}
use procpool.Hive.Submit.Batch.{batch_tasks, prepare_task-lem}
use procpool.Pool.Counts.{Counts}
use procpool.Shared.{Task, Shared, referrer_is_dropping}
use procpool.Shared.Tasks.{new_task, as_unprocessed}
use procpool.Shared.Teardown.{poison}
use procpool.Shared.Teardown.Drain.{live, sent_to, stored_at, send_or_store_task-Drained}
use procpool.Shared.Teardown.Dropped.{queued_tasks, drain_tasks_into_unprocessed-all}

module _ {ℓ} {I O E Q : Type ℓ} where
  -- On a poisoned hive with room in the two counters, an input is not queued: the result is its index,
  -- and its unprocessed outcome is sent last on its channel, if that has a receiver, and stored under
  -- its index otherwise. It is counted as queued all the same.
  pub send_one-poisoned :
      (input : I) (tx : Option ℕ) (q a : ℕ) (s : Shared I O E Q)
      → Counts s q a
      → s.poisoned ≡ true
      → q + 1 < 2 ^ 48
      → s.next_task_index + 1 < 2 ^ 64
      → (t : Shared I O E Q) × (send_one input tx s ≡ done s.next_task_index t)
        × (t.task_rx ≡ s.task_rx)
        × (t.num_tasks ≡ pack 48 (q + 1) a)
        × ((c : ℕ)
            → (t.channels c).sent
              ≡ (s.channels c).sent
                ++ sent_to (live s) c (batch_tasks tx s.next_task_index (input ∷ [])))
        × ((i : ℕ)
            → get i t.outcomes
              ≡ stored_at
                  (live s)
                  i
                  (batch_tasks tx s.next_task_index (input ∷ []))
                  (get i s.outcomes))
  unfolding send_one as_unprocessed new_task new_context
  send_one-poisoned input tx q a s c dead fits wide =
      let x : Task I = new_task input (new_context s.next_task_index hive_suspended) tx in
      let s' : Shared I O E Q = record s {
        num_tasks = pack 48 (q + 1) a;
        next_task_index = s.next_task_index + 1;
      } in
      let (t, e, d, (rx, rq, n)) = send_or_store_task-Drained x s' in
      (
        t,
        ground (arith, prepare_task-lem input tx q a s c fits wide, dead, e),
        rx,
        n,
        d.sent,
        d.stored,
      )

  -- Dropping the last of a hive's clones poisons it and empties its queues, and each task in them becomes
  -- one unprocessed outcome, sent or stored as `drain_tasks_into_unprocessed` does.
  pub drop-last :
      (s : Shared I O E Q)
      → s.num_referrers ≡ 1
      → (t : Shared I O E Q) × (drop s ≡ done tt t)
        × (t.task_rx ≡ [])
        × (t.retry_queue ≡ [])
        × ((c : ℕ)
            → (t.channels c).sent ≡ (s.channels c).sent ++ sent_to (live s) c (queued_tasks s))
        × ((i : ℕ) → get i t.outcomes ≡ stored_at (live s) i (queued_tasks s) (get i s.outcomes))
  unfolding drop referrer_is_dropping poison
  drop-last s one =
      let s' : Shared I O E Q = record s { num_referrers = 0; poisoned = true } in
      let (t, e, rx, rq, sent, stored) = drain_tasks_into_unprocessed-all s' in
      (t, ground (arith, e, one), rx, rq, sent, stored)
