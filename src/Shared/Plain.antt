-- ===== src/Shared/Plain.antt =====
-- src/hive/shared.rs, module `no_retry`, and `execute` of src/hive/hive.rs without the feature `retry`:
-- the same state, whose retry queue is never used.
pub mod Laws
use procpool.Common.{ℕ, Option, Bool, true, if◌then◌else◌, Result, ok, err, done, ◌>>=◌, ◌>>◌, pure}
use procpool.Bee.{Context, WorkerResult}
use procpool.Config.{into_unsync_config}
use procpool.Counter
use procpool.Outcome.{from_worker_result}
use procpool.Shared.{Shared, Call, queue_bits, on_num_tasks}
use procpool.Shared.Queue.{Turn, suspended, ends, NextTaskError, poisoned, invalid_counter, receive}
use procpool.Shared.Tasks.{send_or_store, send_or_store_outcome}
use procpool.Shared.Teardown.{Husk, take_tasks}

module _ {ℓ} {I O E Q : Type ℓ} where
  unfoldable pub drain_tasks : Call I O E Q (Unit {0})
  unfolding send_or_store
  drain_tasks = do queued ← take_tasks; send_or_store queued

  -- `poison` of this variant
  unfoldable pub poison_plain : Call I O E Q (Unit {0})
  unfolding drain_tasks
  poison_plain s = drain_tasks (record s { poisoned = true })

  -- The task becomes active. Where the counter refuses, the hive is poisoned.
  unfoldable pub activate_plain : Turn I → Call I O E Q (Turn I)
  unfolding Counter.transfer poison_plain
  activate_plain (ends (ok t)) = do
    moved ← on_num_tasks (Counter.transfer queue_bits 1)
    elim moved [
      | ok _ ↦ pure (ends (ok t))
      | err e ↦ (do poison_plain; pure (ends (err (invalid_counter e))))
    ]
  activate_plain turn = pure turn

  -- One round of the loop of `next_task`.
  unfoldable pub next_task_plain : Bool → Call I O E Q (Turn I)
  unfolding receive activate_plain
  next_task_plain hung_up s =
      if s.suspended
      then done suspended s
      else if s.poisoned
      then done (ends (err poisoned)) s
      else (do turn ← receive hung_up; activate_plain turn) s

  unfoldable pub try_into_husk_plain : Call I O E Q (Husk I O E Q)
  unfolding drain_tasks into_unsync_config
  try_into_husk_plain = do
    drain_tasks
    λ s.
        done
          (record {
            config = into_unsync_config s.config;
            queen = s.queen;
            num_panics = s.num_panics;
            outcomes = s.outcomes;
          })
          s

  -- `execute`, from where `worker.apply` has returned `result`.
  unfoldable pub settle_plain : Context → Option ℕ → WorkerResult I O E → Call I O E Q (Unit {0})
  unfolding from_worker_result send_or_store_outcome
  settle_plain ctx outcome_tx result =
      send_or_store_outcome (from_worker_result result ctx.index) outcome_tx
