-- ===== src/Hive/Submit/Batch.antt =====
-- src/hive/hive.rs, `send_batch`, and src/hive/shared.rs, `prepare_batch`.
use mathlib.Core.List.{append-nil, append_assoc}
use procpool.Common.{
  ℕ, zero, suc, ◌+◌, ◌-◌, ◌^◌, ◌<◌, ◌≤◌, ◌≡◌, refl, List, [], ◌∷◌, ◌++◌, length, Option, false,
  range, done, panicked, arith,
}
use procpool.Bee.{hive_suspended, new_context}
use procpool.Counter.Laws.{pack}
use procpool.Shared.{Task, Shared}
use procpool.Shared.Tasks.{new_task, prepare_task, reserve, for_batch}
use procpool.Hive.Submit.{send_task, send_batch}
use procpool.Pool.Counts.{Counts, increment_word}

module _ {ℓ} {I : Type ℓ} where
  -- The tasks of a batch whose first index is `start`.
  abbrev pub batch_tasks : Option ℕ → ℕ → List I → List (Task I)
  batch_tasks tx start [] = []
  batch_tasks tx start (input ∷ inputs) =
      record {
        input = input;
        ctx = record { index = start; cancelled = hive_suspended; attempt = 0 };
        outcome_tx = tx;
      }
      ∷ batch_tasks tx (suc start) inputs

module _ {ℓ} {I O E Q : Type ℓ} where
  -- The state after `extra` more tasks are counted and the tasks `ts` are sent.
  abbrev pub submitted : Shared I O E Q → ℕ → ℕ → ℕ → ℕ → List (Task I) → Shared I O E Q
  submitted s queued active extra start ts = record s {
    num_tasks = pack 48 (queued + extra) active;
    next_task_index = start;
    task_rx = s.task_rx ++ ts;
  }

  pub prepare_task-lem :
      (input : I) (tx : Option ℕ) (q a : ℕ) (s : Shared I O E Q)
      → Counts s q a
      → q + 1 < 2 ^ 48
      → s.next_task_index + 1 < 2 ^ 64
      → prepare_task input tx s
        ≡ done
            (new_task input (new_context s.next_task_index hive_suspended) tx)
            (record s { num_tasks = pack 48 (q + 1) a; next_task_index = s.next_task_index + 1 })
  unfolding prepare_task
  prepare_task-lem input tx q a s c fits wide = ground (arith, increment_word c 1)

  for_batch-lem :
      (tx : Option ℕ) (inputs : List I) (k start q a : ℕ) (s : Shared I O E Q)
      → Counts s q a
      → k ≤ length inputs
      → s.next_task_index ≡ start + k
      → q + (length inputs - k) < 2 ^ 48
      → start + length inputs < 2 ^ 64
      → for_batch send_task tx inputs (range start k) s
        ≡ done (range start (length inputs)) (
            submitted s q a
              (length inputs - k)
              (start + length inputs)
              (batch_tasks tx start inputs))
  unfolding for_batch send_task new_task new_context
  for_batch-lem tx [] zero start q a s c le next fits wide =
      ground (arith, append-nil s.task_rx, c.word)
  for_batch-lem tx [] (suc k) start q a s c le next fits wide = absurd (omega arith)
  for_batch-lem tx (input ∷ inputs) (suc k) start q a s c le next fits wide =
      let t : Task I = new_task input (new_context start hive_suspended) tx in
      let s' : Shared I O E Q = record s { task_rx = s.task_rx ++ t ∷ [] } in
      let c' : Counts s' q a = record {
        word = c.word;
        queued_fits = c.queued_fits;
        active_fits = c.active_fits;
      } in
      ground (
        arith,
        for_batch-lem tx inputs k (suc start) q a s' c' (omega arith) (omega arith) (omega arith)
            (omega arith),
        append_assoc s.task_rx (t ∷ []) (batch_tasks tx (suc start) inputs),
      )
  for_batch-lem tx (input ∷ inputs) zero start q a s c le next fits wide =
      let t : Task I = new_task input (new_context start hive_suspended) tx in
      let s' : Shared I O E Q = record s {
        num_tasks = pack 48 (q + 1) a;
        next_task_index = s.next_task_index + 1;
        task_rx = s.task_rx ++ t ∷ [];
      } in
      let c' : Counts s' (q + 1) a = record {
        word = refl;
        queued_fits = omega arith;
        active_fits = c.active_fits;
      } in
      ground (
        arith,
        prepare_task-lem input tx q a s c (omega arith) (omega arith),
        for_batch-lem tx inputs zero (suc start) (q + 1) a s' c' (omega arith) (omega arith)
            (omega arith) (omega arith),
        append_assoc s.task_rx (t ∷ []) (batch_tasks tx (suc start) inputs),
      )

  -- Fewer inputs than indices: the inputs are sent, and the next read of the iterator panics.
  for_batch-short :
      (tx : Option ℕ) (inputs : List I) (k start : ℕ) (s : Shared I O E Q)
      → length inputs < k
      → for_batch send_task tx inputs (range start k) s
        ≡ panicked (record s { task_rx = s.task_rx ++ batch_tasks tx start inputs })
  unfolding for_batch send_task new_task new_context
  for_batch-short tx [] zero start s le = absurd (omega arith)
  for_batch-short tx [] (suc k) start s le = ground (arith, append-nil s.task_rx)
  for_batch-short tx (input ∷ inputs) zero start s le = absurd (omega arith)
  for_batch-short tx (input ∷ inputs) (suc k) start s le =
      let t : Task I = new_task input (new_context start hive_suspended) tx in
      ground (
        arith,
        for_batch-short tx inputs k (suc start) (record s { task_rx = s.task_rx ++ t ∷ [] })
            (omega arith),
        append_assoc s.task_rx (t ∷ []) (batch_tasks tx (suc start) inputs),
      )

  -- The state after `reserve`.
  abbrev pub reserved : ℕ → ℕ → ℕ → Shared I O E Q → Shared I O E Q
  reserved n q a s = record s {
    num_tasks = pack 48 (q + n) a;
    next_task_index = s.next_task_index + n;
  }

  pub reserve-lem :
      (n q a : ℕ) (s : Shared I O E Q)
      → Counts s q a
      → q + n < 2 ^ 48
      → s.next_task_index + n < 2 ^ 64
      → reserve n s ≡ done (range s.next_task_index n) (reserved n q a s)
  unfolding reserve
  reserve-lem n q a s c fits wide = ground (arith, increment_word c n)

  module _ (size : ℕ) (batch : List I) (tx : Option ℕ) (q a : ℕ) (s : Shared I O E Q)
      (c : Counts s q a) (alive : s.poisoned ≡ false) where
    -- On a hive that is not poisoned, and with room in the two counters, a batch with at least as
    -- many inputs as its size hint says is sent whole: the result is one index for each input,
    -- consecutive from the next task index; the queue gains one task for each input in the order
    -- of the batch, under its index and for the given channel; the number of inputs is added to
    -- the queued tasks; and nothing else changes.
    pub send_batch-all :
        size ≤ length batch
        → q + length batch < 2 ^ 48
        → s.next_task_index + length batch < 2 ^ 64
        → send_batch size batch tx s
          ≡ done (range s.next_task_index (length batch)) (
              submitted s q a
                (length batch)
                (s.next_task_index + length batch)
                (batch_tasks tx s.next_task_index batch))
    unfolding send_batch
    send_batch-all le fits wide =
        let s' : Shared I O E Q = reserved size q a s in
        let c' : Counts s' (q + size) a = record {
          word = refl;
          queued_fits = omega arith;
          active_fits = c.active_fits;
        } in
        let total : q + size + (length batch - size) ≡ q + length batch = omega arith in
        ground (
          arith,
          reserve-lem size q a s c (omega arith) (omega arith),
          for_batch-lem tx batch size s.next_task_index (q + size) a s' c' le refl (omega arith)
              wide,
        )

    -- On a hive that is not poisoned, and with room in the two counters, a batch with fewer
    -- inputs than its size hint says panics after its inputs are sent: as many queued tasks as
    -- the hint says stay counted, and as many indices stay used.
    pub send_batch-short :
        length batch < size
        → q + size < 2 ^ 48
        → s.next_task_index + size < 2 ^ 64
        → send_batch size batch tx s
          ≡ panicked (
              submitted s q a size
                (s.next_task_index + size)
                (batch_tasks tx s.next_task_index batch))
    unfolding send_batch
    send_batch-short more fits wide = ground (
      arith,
      reserve-lem size q a s c fits wide,
      for_batch-short tx batch size s.next_task_index (reserved size q a s) more,
    )
