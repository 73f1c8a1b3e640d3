-- ===== src/Hive/Submit/Resume.antt =====
-- src/hive/hive.rs: `take_unprocessed_inputs`, `resume_send` and `resume_store`.
use procpool.Common.{
  ℕ, ◌+◌, ◌^◌, ◌<◌, ◌≡◌, [], Option, false, if◌then◌else◌, length, range, done, arith,
}
use procpool.Hive.Submit.{take_unprocessed_inputs, resume_into}
use procpool.Hive.Submit.Batch.{batch_tasks, submitted, send_batch-all}
use procpool.Outcome.{is_unprocessed}
use procpool.Outcome.Store.Removal.{IsStore, without}
use procpool.Pool.Counts.{Counts}
use procpool.Shared.{Shared, set_suspended}
use procpool.Shared.Teardown.Taken.{
  unprocessed_inputs, take_unprocessed-lem, collect-unprocessed_value,
}

module _ {ℓ} {I O E Q : Type ℓ} where
  -- On a store with unique keys, each outcome under its own index, `take_unprocessed_inputs` returns
  -- the inputs of the unprocessed outcomes, and leaves the other outcomes.
  take_unprocessed_inputs_lem :
      (s : Shared I O E Q)
      → IsStore s.outcomes
      → take_unprocessed_inputs s
        ≡ done
            (unprocessed_inputs s.outcomes)
            (record s { outcomes = without is_unprocessed s.outcomes })
  unfolding take_unprocessed_inputs
  take_unprocessed_inputs_lem s v =
      let s' : Shared I O E Q = record s { outcomes = without is_unprocessed s.outcomes } in
      ground (arith, take_unprocessed-lem s v, collect-unprocessed_value s.outcomes s')

  -- The state in which the stored unprocessed outcomes have become tasks.
  abbrev pub resumed : Shared I O E Q → ℕ → ℕ → Option ℕ → Shared I O E Q
  resumed s queued active tx =
      let inputs = unprocessed_inputs s.outcomes in
      submitted (record s { suspended = false; outcomes = without is_unprocessed s.outcomes })
        queued active (length inputs) (s.next_task_index + length inputs)
        (batch_tasks tx s.next_task_index inputs)

  -- On a hive that is not poisoned, whose store has unique keys and each outcome under its own
  -- index, and with room in the two counters, resuming a suspended hive returns one new index for
  -- each stored unprocessed outcome, consecutive from the next task index; the inputs of these
  -- outcomes are queued in the order of the store under the new indices and counted as queued, and
  -- exactly these outcomes leave the store. A hive that is not suspended resubmits nothing.
  pub resume_into-unprocessed :
      (tx : Option ℕ) (q a : ℕ) (s : Shared I O E Q)
      → Counts s q a
      → s.poisoned ≡ false
      → IsStore s.outcomes
      → q + length (unprocessed_inputs s.outcomes) < 2 ^ 48
      → s.next_task_index + length (unprocessed_inputs s.outcomes) < 2 ^ 64
      → resume_into tx s ≡ (
          if s.suspended
          then done
              (range s.next_task_index (length (unprocessed_inputs s.outcomes)))
              (resumed s q a tx)
          else done [] (record s { suspended = false }))
  unfolding resume_into set_suspended
  resume_into-unprocessed tx q a s c alive v fits wide =
      let inputs = unprocessed_inputs s.outcomes in
      let s' : Shared I O E Q = record s { suspended = false } in
      let s'' : Shared I O E Q = record s' { outcomes = without is_unprocessed s.outcomes } in
      let c'' : Counts s'' q a = record {
        word = c.word;
        queued_fits = c.queued_fits;
        active_fits = c.active_fits;
      } in
      ground (
        arith,
        take_unprocessed_inputs_lem s' v,
        send_batch-all (length inputs) inputs tx q a s'' c'' alive (omega arith) fits wide,
      )
