-- ===== src/Pool/Retries.antt =====
-- The retry queue of a hive while its threads interleave: src/hive/shared.rs, module `retry`.
use procpool.Common.{
  ap, ℕ, suc, ◌≡◌, Option, none, some, done, ok, err, arith, inl, inr, sym, Bool-cases,
}
use procpool.Config.{Config}
use procpool.Delay.Laws.{NotBefore}
use procpool.Bee.{Context, WorkerResult, retryable, fatal, cancelled, panic_error, inc_attempt}
use procpool.Hive.Thread.{settle}
use procpool.Outcome.{Outcome, from_worker_result}
use procpool.Pool.Counts.{try_send_msg-cases}
use procpool.Shared.Retry.{can_retry}
use procpool.Shared.{
  Channel, Shared, set_suspended, new, referrer_is_cloning, referrer_is_dropping, finish_task,
}
use procpool.Shared.Queue.{pop_retry, receive, activate}
use procpool.Shared.Tasks.{prepare_task, reserve, send_or_store_outcome, deliver, add_outcome}
use procpool.Shared.Teardown.{take_outcomes}
use procpool.Hive.Submit.{send_task}
use procpool.Shared.Retry.Bound.{
  NextRetryBounds, pop_retry-NextRetryBounds, pop_retry-none_due, queue_retry-NextRetryBounds,
  Bounds-cast,
}
use procpool.Pool.{
  System, Step, Reach, init, prepares, reserves, makes, pops, finds_none, receives, activates,
  settles, unwinds, retry_panics, finishes, suspends, clones, drops_clone, takes_stored,
  takes_unprocessed, start, later,
}
use procpool.Pool
use procpool.Shared.Teardown.Taken.{take_unprocessed-only}

module _ {ℓ} {I O E Q : Type ℓ} where
  -- What a step does that leaves the retries alone.
  kept :
      (s t : Shared I O E Q)
      → t.retry_queue ≡ s.retry_queue
      → t.next_retry ≡ s.next_retry
      → NextRetryBounds s
      → NextRetryBounds t
  kept s t e e' b = Bounds-cast (sym e') (sym e) b

  delivered :
      (o : Outcome I O E) (tx : Option ℕ) (s t : Shared I O E Q)
      → send_or_store_outcome o tx s ≡ done tt t
      → NextRetryBounds s
      → NextRetryBounds t
  unfolding send_or_store_outcome deliver add_outcome
  delivered o none s t e b = kept s t (ground arith) (ground arith) b
  delivered o (some tx) s t e b =
      kept s t (ground (arith, try_send_msg-cases tx o s))
        (ground (arith, try_send_msg-cases tx o s)) b

  settled :
      (now : ℕ) (ctx : Context) (tx : Option ℕ) (result : WorkerResult I O E) (s t : Shared I O E Q)
      → settle now ctx tx result s ≡ done tt t
      → NextRetryBounds s
      → NextRetryBounds t
  unfolding settle
  settled now ctx tx (ok value) s t e b = delivered _ tx s t e b
  settled now ctx tx (err (retryable input error)) s t e b = elim (Bool-cases (can_retry ctx s)) [
    | inl again ↦ queue_retry-NextRetryBounds now input (inc_attempt ctx) tx s t b (ground arith)
    | inr finished ↦
        delivered (from_worker_result (err (retryable input error)) ctx.index) tx s t (ground arith)
          b
  ]
  settled now ctx tx (err (fatal input error)) s t e b = delivered _ tx s t e b
  settled now ctx tx (err (cancelled input)) s t e b = delivered _ tx s t e b
  settled now ctx tx (err (panic_error input payload)) s t e b = delivered _ tx s t e b

  Step-NextRetryBounds :
      {threads : ℕ} {s t : System I O E Q}
      → NextRetryBounds s.shared
      → Step threads s t
      → NextRetryBounds t.shared
  unfolding prepare_task reserve send_task receive activate finish_task set_suspended
      referrer_is_dropping referrer_is_cloning take_outcomes
  Step-NextRetryBounds {s} b (prepares {t} input tx x e) =
      kept s.shared t (ground arith) (ground arith) b
  Step-NextRetryBounds {s} b (reserves {t} n indices e) =
      kept s.shared t (ground arith) (ground arith) b
  Step-NextRetryBounds {s} b (makes pre post i input tx split) = b
  Step-NextRetryBounds {s} b (Pool.Step.sends {t} pre post x k split e) =
      kept s.shared t (ground arith) (ground arith) b
  Step-NextRetryBounds {s} b (pops {t} now x h e) =
      pop_retry-NextRetryBounds now (some x) s.shared t b e
  Step-NextRetryBounds {s} b (finds_none {t} now e) =
      pop_retry-NextRetryBounds now none s.shared t b e
  Step-NextRetryBounds {s} b (receives {t} x h e) = kept s.shared t (ground arith) (ground arith) b
  Step-NextRetryBounds {s} b (activates {t} pre post x split e) =
      kept s.shared t (ground arith) (ground arith) b
  Step-NextRetryBounds {s} b (settles {t} now pre post x result split e) =
      settled now x.ctx x.outcome_tx result s.shared t e b
  Step-NextRetryBounds {s} b (unwinds pre post x split) = b
  Step-NextRetryBounds {s} b (retry_panics pre post x input error split again over) = b
  Step-NextRetryBounds {s} b (finishes {t} panicking h e) =
      kept s.shared t (ground arith) (ground arith) b
  Step-NextRetryBounds {s} b (suspends {t} v changed e) =
      kept s.shared t (ground arith) (ground arith) b
  Step-NextRetryBounds {s} b (clones {t} n e) = kept s.shared t (ground arith) (ground arith) b
  Step-NextRetryBounds {s} b (drops_clone {t} n e left) =
      kept s.shared t (ground arith) (ground arith) b
  Step-NextRetryBounds {s} b (takes_stored {t} stored e) =
      kept s.shared t (ground arith) (ground arith) b
  Step-NextRetryBounds {s} b (takes_unprocessed {t} taken e) =
      let only = take_unprocessed-only s.shared t taken e in
      kept s.shared t (ap (λ u. u.retry_queue) only) (ap (λ u. u.next_retry) only) b

  Reach-NextRetryBounds :
      {threads : ℕ} (config : Config) (queen : Q) (channels : ℕ → Channel I O E)
      (s : System I O E Q)
      → Reach threads (init config queen channels) s
      → NextRetryBounds s.shared
  unfolding new
  Reach-NextRetryBounds config queen channels s start = tt
  Reach-NextRetryBounds config queen channels s (later r step) =
      Step-NextRetryBounds (Reach-NextRetryBounds config queen channels _ r) step

  -- In every state that the steps of a hive reach, if a thread that looks for a retry at the time
  -- `now` finds none, then no task in the retry queue is due at `now`.
  pub pop_retry-Reach :
      (threads : ℕ) (config : Config) (queen : Q) (channels : ℕ → Channel I O E)
      (s : System I O E Q)
      → Reach threads (init config queen channels) s
      → (now : ℕ) (t : Shared I O E Q) → pop_retry now s.shared ≡ done none t
      → NotBefore (suc now) s.shared.retry_queue
  pop_retry-Reach threads config queen channels s r now t e =
      pop_retry-none_due now s.shared t (Reach-NextRetryBounds config queen channels s r) e
