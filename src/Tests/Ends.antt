-- ===== src/Tests/Ends.antt =====
-- Hives that are drained, dropped, restarted from a husk, or grown.
use procpool.Common.{
  ℕ, ◌≡◌, refl, [], ◌∷◌, ◌++◌, none, some, done, arith, true, ok, Bool, ltb, filter,
}
use procpool.Hive.{grow}
use procpool.Hive.Grow.{grow-counts}
use procpool.Common.Maps.{get}
use procpool.Atomic.{AtomicOption}
use procpool.Husk.{collect_unprocessed, swarm_unprocessed}
use procpool.Husk.Laws.{fresh, swarm_unprocessed-all}
use procpool.Hive.Submit.Batch.{submitted}
use procpool.Outcome.{unprocessed, success}
use procpool.Shared.{Shared}
use procpool.Shared.Teardown.{Husk, drain_tasks_into_unprocessed}
use procpool.Shared.Teardown.Drain.{live, sent_to, stored_at}
use procpool.Shared.Teardown.Dropped.{drain_tasks_into_unprocessed-all, queued_tasks}
use procpool.Tests.Samples.{config, channels, task_of, three_queued}

drain_tasks_into_unprocessed-all_example :
    (t : Shared ℕ ℕ ℕ ℕ) × (drain_tasks_into_unprocessed three_queued ≡ done tt t)
    × (t.task_rx ≡ [])
    × (t.retry_queue ≡ [])
    × ((c : ℕ)
        → (t.channels c).sent
          ≡ (channels c).sent ++ sent_to (live three_queued) c (queued_tasks three_queued))
    × ((i : ℕ)
        → get i t.outcomes ≡ stored_at (live three_queued) i (queued_tasks three_queued) (get i []))
drain_tasks_into_unprocessed-all_example = drain_tasks_into_unprocessed-all three_queued

abbrev husk : Husk ℕ ℕ ℕ ℕ
husk = record {
  config = config;
  queen = 0;
  num_panics = 0;
  outcomes = (4, unprocessed 40 4) ∷ (5, success 1 5) ∷ [];
}

one_unprocessed : collect_unprocessed husk.outcomes ≡ 40 ∷ []
unfolding collect_unprocessed
one_unprocessed = refl

swarm_unprocessed-all_example :
    swarm_unprocessed (λ i. true) channels none husk
    ≡ ok (
        done (0 ∷ []) (
          submitted (fresh (λ i. true) (λ i. refl) channels husk) 0 0 1 1 (task_of 40 0 none ∷ [])))
unfolding collect_unprocessed
swarm_unprocessed-all_example =
    swarm_unprocessed-all (λ i. true) (λ i. refl) channels husk none (omega arith)

-- Only the threads with an index below 4 start.
abbrev few_start : ℕ → Bool
few_start i = ltb i 4

grow-counts_example :
    grow few_start 3 three_queued
    ≡ done 2 (record three_queued {
      config = record config { num_threads = AtomicOption.sync (some 5) };
    })
unfolding filter
grow-counts_example = grow-counts few_start three_queued refl 2 refl 3
