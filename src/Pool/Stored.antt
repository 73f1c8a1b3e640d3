-- ===== src/Pool/Stored.antt =====
-- src/hive/shared.rs: the map of outcomes while the threads of a hive interleave.
use procpool.Common.{
  ℕ, ◌+◌, ◌≡◌, ◌≤◌, refl, List, [], ◌∷◌, Option, none, some, Bool, false, if◌then◌else◌, done,
  arith, inl, inr, ◌⊎◌,
}
use procpool.Common.Maps.{insert, keys}
use procpool.Bee.{Context, WorkerResult, inc_attempt}
use procpool.Config.{Config}
use procpool.Hive.Submit.{send_task}
use procpool.Hive.Thread.{settle}
use procpool.Hive.Thread.Fate.{outcome_index}
use procpool.Outcome.{Outcome, from_worker_result, index, is_unprocessed}
use procpool.Outcome.Store.{Outcomes}
use procpool.Outcome.Store.Kept.{insert-IsStore, without-IsStore}
use procpool.Outcome.Store.Removal.{IsStore, without}
use procpool.Pool.{
  System, Step, Reach, init, is_requeued, prepares, reserves, makes, pops, finds_none, receives,
  activates, settles, unwinds, retry_panics, finishes, suspends, clones, drops_clone, takes_stored,
  takes_unprocessed, start, later,
}
use procpool.Pool.Counts.{retry_delay-cases, try_send_msg-cases}
use procpool.Pool.Settle.{settle-cases}
use procpool.Pool.Occurs.{occurs, one}
use procpool.Shared.{
  Task, Channel, Shared, new, finish_task, set_suspended, referrer_is_cloning, referrer_is_dropping,
}
use procpool.Shared.Queue.{pop_retry, receive, activate}
use procpool.Shared.Retry.{queue_retry, push_retry, update_next_retry}
use procpool.Shared.Tasks.{prepare_task, reserve, send_or_store_outcome, deliver, add_outcome}
use procpool.Shared.Teardown.{take_outcomes}
use procpool.Shared.Teardown.Taken.{take_unprocessed-lem}

module _ {ℓ} {I O E : Type ℓ} where
  insert-occurs :
      (k j : ℕ) (o : Outcome I O E) (m : Outcomes I O E)
      → occurs k (keys (insert j o m)) ≤ one k j + occurs k (keys m)
  unfolding insert
  insert-occurs k j o [] = omega arith
  insert-occurs k j o ((i, p) ∷ m) = ground (arith, insert-occurs k j o m)

  module _ (test : Outcome I O E → Bool) where
    without-occurs :
        (k : ℕ) (m : Outcomes I O E) → occurs k (keys (without test m)) ≤ occurs k (keys m)
    unfolding without
    without-occurs k [] = omega arith
    without-occurs k ((j, o) ∷ m) = ground (arith, without-occurs k m)

module _ {ℓ} {I O E Q : Type ℓ} where
  -- The map has unique keys, each outcome under its own index, and each of these is the index of
  -- a delivered task.
  pub record Stored (s : System I O E Q) : Type ℓ where
    pub is_store : IsStore s.shared.outcomes
    pub from_delivered : (k : ℕ) → occurs k (keys s.shared.outcomes) ≤ occurs k s.delivered

  send_or_store_outcome-outcomes :
      (o : Outcome I O E) (tx : Option ℕ) (s t : Shared I O E Q)
      → send_or_store_outcome o tx s ≡ done tt t
      → (t.outcomes ≡ s.outcomes) ⊎ (t.outcomes ≡ insert (index o) o s.outcomes)
  unfolding send_or_store_outcome deliver add_outcome
  send_or_store_outcome-outcomes o none s t e = inr (ground arith)
  send_or_store_outcome-outcomes o (some c) s t e = elim (try_send_msg-cases c o s) [
    | inl live ↦ inl (ground arith)
    | inr gone ↦ inr (ground arith)
  ]

  queue_retry-outcomes :
      (now : ℕ) (input : I) (ctx : Context) (tx : Option ℕ) (s t : Shared I O E Q)
      → queue_retry now input ctx tx s ≡ done tt t
      → t.outcomes ≡ s.outcomes
  unfolding queue_retry push_retry update_next_retry
  queue_retry-outcomes now input ctx tx s t e = elim (retry_delay-cases ctx s) [
    | inl (delay, d) ↦ ground arith
    | inr no_delay ↦ ground arith
  ]

  -- Settling a task stores at most its outcome, and stores none for a task that is queued again.
  settle-outcomes :
      (now : ℕ) (ctx : Context) (tx : Option ℕ) (result : WorkerResult I O E) (s t : Shared I O E Q)
      → settle now ctx tx result s ≡ done tt t
      → (t.outcomes ≡ s.outcomes)
        ⊎ ((is_requeued ctx result s ≡ false)
            × (t.outcomes
                ≡ insert
                    (index (from_worker_result result ctx.index))
                    (from_worker_result result ctx.index)
                    s.outcomes))
  settle-outcomes now ctx tx result s t e = elim (settle-cases now ctx tx result s t e) [
    | inl (last, sent) ↦ let either = send_or_store_outcome-outcomes _ tx s t sent in ground arith
    | inr (again, input, queued) ↦
        inl (queue_retry-outcomes now input (inc_attempt ctx) tx s t queued)
  ]

  -- The map is the same.
  kept :
      {s : System I O E Q} (t : System I O E Q)
      → Stored s
      → t.shared.outcomes ≡ s.shared.outcomes
      → ((k : ℕ) → occurs k s.delivered ≤ occurs k t.delivered)
      → Stored t
  kept t v same more = record {
    is_store = rw same v.is_store;
    from_delivered = λ k. rw same (omega (arith, v.from_delivered k, more k));
  }

  settled :
      {s : System I O E Q} (t : Shared I O E Q) (now : ℕ) (x : Task I) (result : WorkerResult I O E)
      (others : List (Task I))
      → Stored s
      → settle now x.ctx x.outcome_tx result s.shared ≡ done tt t
      → Stored (record s {
        shared = t;
        running = others;
        finishing = s.finishing + 1;
        delivered =
            if is_requeued x.ctx result s.shared then s.delivered else x.ctx.index ∷ s.delivered;
      })
  settled {s} t now x result others v e =
      let o : Outcome I O E = from_worker_result result x.ctx.index in
      elim (settle-outcomes now x.ctx x.outcome_tx result s.shared t e) [
        | inl same ↦ kept _ v same (λ k. ground arith)
        | inr (last, stored) ↦ record {
          is_store = rw stored (insert-IsStore o s.shared.outcomes v.is_store);
          from_delivered = λ k. ground (
            arith,
            insert-occurs k (index o) o s.shared.outcomes,
            outcome_index result x.ctx.index,
            v.from_delivered k,
          );
        }
      ]

  Step-Stored : {threads : ℕ} {s t : System I O E Q} → Stored s → Step threads s t → Stored t
  unfolding prepare_task reserve send_task pop_retry update_next_retry receive activate finish_task
      set_suspended referrer_is_cloning referrer_is_dropping take_outcomes
  Step-Stored v (prepares input tx x e) = kept _ v (ground arith) (λ k. omega arith)
  Step-Stored v (reserves n indices e) = kept _ v (ground arith) (λ k. omega arith)
  Step-Stored v (makes pre post i input tx split) = kept _ v refl (λ k. omega arith)
  Step-Stored v (Step.sends pre post x i split e) = kept _ v (ground arith) (λ k. omega arith)
  Step-Stored v (pops now x room e) = kept _ v (ground arith) (λ k. omega arith)
  Step-Stored v (finds_none now e) = kept _ v (ground arith) (λ k. omega arith)
  Step-Stored v (receives x room e) = kept _ v (ground arith) (λ k. omega arith)
  Step-Stored v (activates pre post x split e) = kept _ v (ground arith) (λ k. omega arith)
  Step-Stored v (settles {t} now pre post x result split e) = settled t now x result _ v e
  Step-Stored v (unwinds pre post x split) = kept _ v refl (λ k. omega arith)
  Step-Stored v (retry_panics pre post x input error split again over) =
      kept _ v refl (λ k. omega arith)
  Step-Stored v (finishes panicking busy e) = kept _ v (ground arith) (λ k. omega arith)
  Step-Stored v (suspends b changed e) = kept _ v (ground arith) (λ k. omega arith)
  Step-Stored v (clones n e) = kept _ v (ground arith) (λ k. omega arith)
  Step-Stored v (drops_clone n e left) = kept _ v (ground arith) (λ k. omega arith)
  Step-Stored {s} v (takes_stored {t} stored e) =
      let gone : t.outcomes ≡ [] = ground arith in
      record {
        is_store = rw gone (record { unique = tt; indexed = tt });
        from_delivered = λ k. rw gone (omega arith);
      }
  Step-Stored {s} v (takes_unprocessed {t} taken e) =
      let m = s.shared.outcomes in
      let left : t.outcomes ≡ without is_unprocessed m =
        ground (arith, take_unprocessed-lem s.shared v.is_store) in
      record {
        is_store = rw left (without-IsStore is_unprocessed m v.is_store);
        from_delivered =
            λ k. rw left (omega (arith, without-occurs is_unprocessed k m, v.from_delivered k));
      }

  -- In every state that the steps of a hive reach, the map of stored outcomes has unique keys, each
  -- outcome is stored under its own index, and this is the index of a task that was delivered.
  pub outcomes-Reach :
      {threads : ℕ} (config : Config) (queen : Q) (channels : ℕ → Channel I O E)
      (s : System I O E Q)
      → Reach threads (init config queen channels) s
      → Stored s
  unfolding new
  outcomes-Reach config queen channels s start = record {
    is_store = record { unique = tt; indexed = tt };
    from_delivered = λ k. omega arith;
  }
  outcomes-Reach config queen channels s (later r step) =
      Step-Stored (outcomes-Reach config queen channels _ r) step
