-- ===== src/Shared/Teardown/Dropped.antt =====
-- src/hive/shared.rs: draining both queues, and making a husk.

use procpool.Common.{ℕ, ◌≡◌, ◌∙◌, List, [], ◌++◌, map, done, arith}
use procpool.Common.Maps.{get}
use procpool.Config.{into_unsync_config}
use procpool.Delay.{drain}
use procpool.Shared.{Task, Shared}
use procpool.Shared.Teardown.{drain_tasks_into_unprocessed, try_into_husk, Husk}
use procpool.Shared.Teardown.Drain.{
  live, sent_to, stored_at, Drained, Drained-trans, send_or_store-Drained,
}

module _ {ℓ} {I O E Q : Type ℓ} where
  -- The tasks in the two queues.
  abbrev pub queued_tasks : Shared I O E Q → List (Task I)
  queued_tasks s = s.task_rx ++ map (λ d. d.value) s.retry_queue

  -- Draining returns and empties both queues. Every task of the two queues, in their order,
  -- becomes one unprocessed outcome: each channel with a receiver gains those of its tasks in
  -- order, and the map of outcomes holds, under each index, the last one of that index that was
  -- not sent, or what it held before.
  pub drain_tasks_into_unprocessed-all :
      (s : Shared I O E Q)
      → (t : Shared I O E Q) × (drain_tasks_into_unprocessed s ≡ done tt t)
        × (t.task_rx ≡ [])
        × (t.retry_queue ≡ [])
        × ((c : ℕ)
            → (t.channels c).sent ≡ (s.channels c).sent ++ sent_to (live s) c (queued_tasks s))
        × ((i : ℕ) → get i t.outcomes ≡ stored_at (live s) i (queued_tasks s) (get i s.outcomes))
  unfolding drain_tasks_into_unprocessed drain
  drain_tasks_into_unprocessed-all s =
      let retries : List (Task I) = map (λ d. d.value) s.retry_queue in
      let s1 : Shared I O E Q = record s { task_rx = [] } in
      let (t, e, d, same) = send_or_store-Drained s.task_rx s1 in
      let t1 : Shared I O E Q = record t { retry_queue = [] } in
      let (u, f, g, same') = send_or_store-Drained retries t1 in
      let queue : t.retry_queue ≡ s.retry_queue = same.1 in
      let both : Drained s1 (queued_tasks s) u =
        Drained-trans {t = t} d
          (record { same_live = g.same_live; sent = g.sent; stored = g.stored }) in
      (u, ground arith, same'.0 ∙ same.0, same'.1, both.sent, both.stored)

  -- Making a husk returns. Every task of the two queues is sent as unprocessed to its channel, in
  -- order, if that has a receiver; the husk's outcomes hold, under each index, the last
  -- unprocessed outcome of that index that was not sent, or what the hive stored before.
  pub try_into_husk-all :
      (s : Shared I O E Q)
      → (h : Husk I O E Q) × (t : Shared I O E Q) × (try_into_husk s ≡ done h t)
        × ((c : ℕ)
            → (t.channels c).sent ≡ (s.channels c).sent ++ sent_to (live s) c (queued_tasks s))
        × ((i : ℕ) → get i h.outcomes ≡ stored_at (live s) i (queued_tasks s) (get i s.outcomes))
  unfolding try_into_husk
  try_into_husk-all s =
      let (t, e, rx, retries, sent, stored) = drain_tasks_into_unprocessed-all s in
      (
        record {
          config = into_unsync_config t.config;
          queen = t.queen;
          num_panics = t.num_panics;
          outcomes = t.outcomes;
        },
        t,
        ground arith,
        sent,
        stored,
      )
