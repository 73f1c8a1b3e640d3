-- ===== src/Pool/Settle.antt =====
-- What becomes of the counter and the queues when a worker has returned.
use procpool.Common.{
  refl, ◌⊎◌, true, false, ℕ, ◌+◌, ◌≤◌, ◌≡◌, ◌∙◌, Option, ok, err, done, arith, inl, inr, Bool-cases,
}
use procpool.Bee.{Context, WorkerResult, retryable, fatal, cancelled, panic_error, inc_attempt}
use procpool.Shared.{Shared}
use procpool.Shared.Retry.{queue_retry, can_retry}
use procpool.Outcome.{Outcome, from_worker_result}
use procpool.Shared.Tasks.{send_or_store_outcome}
use procpool.Hive.Thread.{settle}
use procpool.Pool.{is_requeued}
use procpool.Pool.Counts.{
  Counts, waiting, increment_word, retry_delay-cases, send_or_store_outcome-waiting,
}

module _ {ℓ} {I O E Q : Type ℓ} where
  -- `execute` either delivers the outcome, or queues the task again after a retryable error.
  pub settle-cases :
      (now : ℕ) (ctx : Context) (tx : Option ℕ) (result : WorkerResult I O E) (s t : Shared I O E Q)
      → settle now ctx tx result s ≡ done tt t
      → ((is_requeued ctx result s ≡ false)
          × (send_or_store_outcome (from_worker_result result ctx.index) tx s ≡ done tt t))
        ⊎ ((is_requeued ctx result s ≡ true)
            × (input : I) × (queue_retry now input (inc_attempt ctx) tx s ≡ done tt t))
  unfolding settle
  settle-cases now ctx tx (ok value) s t e = inl (refl, e)
  settle-cases now ctx tx (err (retryable input error)) s t e =
      elim (Bool-cases (can_retry ctx s)) [
        | inl again ↦ inr (again, input, ground arith)
        | inr last ↦ inl (last, ground arith)
      ]
  settle-cases now ctx tx (err (fatal input error)) s t e = inl (refl, e)
  settle-cases now ctx tx (err (cancelled input)) s t e = inl (refl, e)
  settle-cases now ctx tx (err (panic_error input payload)) s t e = inl (refl, e)

module _ {ℓ} {I O E Q : Type ℓ} {s : Shared I O E Q} {queued active : ℕ}
    (c : Counts s queued active) (t : Shared I O E Q) where
  queue_retry-Counts :
      (now : ℕ) (input : I) (ctx : Context) (tx : Option ℕ)
      → queue_retry now input ctx tx s ≡ done tt t
      → Counts t (queued + 1) active × (waiting t ≡ waiting s + 1) × (t.poisoned ≡ s.poisoned)
  unfolding queue_retry
  queue_retry-Counts now input ctx tx e =
      ground (arith, retry_delay-cases ctx s, increment_word c 1, c.queued_fits, c.active_fits)

  -- A task that is settled leaves `k` tasks in the retry queue, none or one.
  pub record Settled : Type 0 where
    pub again : ℕ
    pub counts : Counts t (queued + again) active
    pub one : again ≤ 1
    pub queues : waiting t ≡ waiting s + again
    pub alive : t.poisoned ≡ s.poisoned

  delivered :
      (o : Outcome I O E) (tx : Option ℕ) → send_or_store_outcome o tx s ≡ done tt t → Settled
  delivered o tx e =
      let ((word, alive), kept) = send_or_store_outcome-waiting o tx s t e in
      let zero_more : queued + 0 ≡ queued = omega arith in
      record {
        again = 0;
        one = omega arith;
        counts = rw zero_more (record {
          word = word ∙ c.word;
          queued_fits = c.queued_fits;
          active_fits = c.active_fits;
        });
        queues = omega arith;
        alive = alive;
      }

  pub settle-Settled :
      (now : ℕ) (ctx : Context) (tx : Option ℕ) (result : WorkerResult I O E)
      → settle now ctx tx result s ≡ done tt t
      → Settled
  settle-Settled now ctx tx result e = elim (settle-cases now ctx tx result s t e) [
    | inl (last, sent) ↦ delivered (from_worker_result result ctx.index) tx sent
    | inr (again, input, queued) ↦
        let (counts, queues, alive) = queue_retry-Counts now input (inc_attempt ctx) tx queued in
        record { again = 1; one = omega arith; counts = counts; queues = queues; alive = alive }
  ]
