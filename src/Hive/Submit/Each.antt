-- ===== src/Hive/Submit/Each.antt =====
-- src/hive/hive.rs: the operations that submit their inputs one by one.
use mathlib.Core.List.{append-nil, append_assoc}
use procpool.Common.{
  ℕ, suc, ◌+◌, ◌^◌, ◌<◌, ◌≡◌, refl, sym, ◌∙◌, List, [], ◌∷◌, ◌++◌, length, Option, none, some,
  false, range, done, arith, collect,
}
use procpool.Bee.{new_context}
use procpool.Hive.Submit.{
  send_one, send_task, map_send, map_store, swarm_send, swarm_store, scan_with, scan_into,
}
use procpool.Hive.Submit.Batch.{batch_tasks, submitted, prepare_task-lem, send_batch-all}
use procpool.Pool.Counts.{Counts}
use procpool.Shared.{Shared}
use procpool.Shared.Tasks.{new_task}

module _ {ℓ κ} {I : Type ℓ} {St T : Type κ} (f : St → T → St × I) where
  -- The inputs that the closure makes of the items, and its last state.
  abbrev pub scanned : List T → St → List I
  scanned [] acc = []
  scanned (item ∷ items) acc = (f acc item).1 ∷ scanned items (f acc item).0

  abbrev pub last_state : List T → St → St
  last_state [] acc = acc
  last_state (item ∷ items) acc = last_state items (f acc item).0

module _ {ℓ} {I O E Q : Type ℓ} where
  -- What a submission needs, of a hive and of the number of inputs.
  pub record Accepts (n q a : ℕ) (s : Shared I O E Q) : Type 0 where
    pub counts : Counts s q a
    pub alive : s.poisoned ≡ false
    pub fits : q + n < 2 ^ 48
    pub wide : s.next_task_index + n < 2 ^ 64

  -- The state after one input is sent.
  abbrev one_more : Option ℕ → I → ℕ → ℕ → Shared I O E Q → Shared I O E Q
  one_more tx input q a s =
      submitted s q a 1 (s.next_task_index + 1) (batch_tasks tx s.next_task_index (input ∷ []))

  send_one-lem :
      (input : I) (tx : Option ℕ) (n q a : ℕ) (s : Shared I O E Q)
      → Accepts (suc n) q a s
      → (send_one input tx s ≡ done s.next_task_index (one_more tx input q a s))
        × Accepts n (q + 1) a (one_more tx input q a s)
  unfolding send_one send_task new_task new_context
  send_one-lem input tx n q a s h = (
    ground (arith, prepare_task-lem input tx q a s h.counts (omega arith) (omega arith), h.alive),
    record {
      counts = record {
        word = refl;
        queued_fits = omega arith;
        active_fits = h.counts.active_fits;
      };
      alive = h.alive;
      fits = omega arith;
      wide = omega arith;
    },
  )

  pub send_each :
      (inputs : List I) (tx : Option ℕ) (q a : ℕ) (s : Shared I O E Q)
      → Accepts (length inputs) q a s
      → collect (λ input. send_one input tx) inputs s
        ≡ done (range s.next_task_index (length inputs)) (
            submitted s q a
              (length inputs)
              (s.next_task_index + length inputs)
              (batch_tasks tx s.next_task_index inputs))
  unfolding collect
  send_each [] tx q a s h = ground (arith, append-nil s.task_rx, h.counts.word)
  send_each (input ∷ inputs) tx q a s h =
      let (sent, next) = send_one-lem input tx (length inputs) q a s h in
      ground (
        arith,
        sent,
        send_each inputs tx (q + 1) a (one_more tx input q a s) next,
        append_assoc s.task_rx (batch_tasks tx s.next_task_index (input ∷ []))
            (batch_tasks tx (s.next_task_index + 1) inputs),
      )

  -- On a hive that is not poisoned and has room in the two counters for the inputs, mapping over them
  -- is the same call as sending them as one batch, for the results and for the state: the tasks get
  -- the same indices and stand in the queue in the same order, for the given channel or for none.
  pub map_send-swarm_send :
      (inputs : List I) (tx q a : ℕ) (s : Shared I O E Q)
      → Accepts (length inputs) q a s
      → (map_send inputs tx s ≡ swarm_send inputs tx s)
        × (map_store inputs s ≡ swarm_store inputs s)
  unfolding map_send map_store
  map_send-swarm_send inputs tx q a s h = (
    send_each inputs (some tx) q a s h
        ∙ sym (
            send_batch-all (length inputs) inputs (some tx) q a s h.counts h.alive (omega arith)
              h.fits h.wide),
    send_each inputs none q a s h
        ∙ sym (
            send_batch-all (length inputs) inputs none q a s h.counts h.alive (omega arith) h.fits
              h.wide),
  )

  module _ {κ} {St T : Type κ} (f : St → T → St × I) where
    scan_with-lem :
        (items : List T) (tx : Option ℕ) (indices : List ℕ) (acc : St) (q a : ℕ)
        (s : Shared I O E Q)
        → Accepts (length items) q a s
        → scan_with f tx items indices acc s
          ≡ done
              (indices ++ range s.next_task_index (length items), last_state f items acc)
              (submitted s q a
                (length items)
                (s.next_task_index + length items)
                (batch_tasks tx s.next_task_index (scanned f items acc)))
    unfolding scan_with
    scan_with-lem [] tx indices acc q a s h =
        ground (arith, append-nil s.task_rx, append-nil indices, h.counts.word)
    scan_with-lem (item ∷ items) tx indices acc q a s h =
        let input : I = (f acc item).1 in
        let n = s.next_task_index in
        let (sent, next) = send_one-lem input tx (length items) q a s h in
        ground (
          arith,
          sent,
          scan_with-lem items tx (indices ++ n ∷ []) (f acc item).0 (q + 1) a
              (one_more tx input q a s) next,
          append_assoc indices (n ∷ []) (range (n + 1) (length items)),
          append_assoc s.task_rx (batch_tasks tx n (input ∷ []))
              (batch_tasks tx (n + 1) (scanned f items (f acc item).0)),
        )

    -- On a hive that is not poisoned and has room in the two counters for the items, scanning returns
    -- consecutive indices, one for each item, and the closure's last state; the queue gains one task for
    -- each input that the closure makes, in order, and the number of items is added to the queued tasks.
    pub scan_into-scanned :
        (items : List T) (tx : Option ℕ) (acc : St) (q a : ℕ) (s : Shared I O E Q)
        → Accepts (length items) q a s
        → scan_into tx items acc f s
          ≡ done
              (range s.next_task_index (length items), last_state f items acc)
              (submitted s q a
                (length items)
                (s.next_task_index + length items)
                (batch_tasks tx s.next_task_index (scanned f items acc)))
    unfolding scan_into
    scan_into-scanned items tx acc q a s h = scan_with-lem items tx [] acc q a s h
