-- ===== src/Pool/Closing/Waits.antt =====
-- src/hive/shared.rs, `poison` and `next_task`: the worker threads of a suspended hive whose last handle
-- is dropped.
use procpool.Common.{
  ℕ, ◌≤◌, ◌≡◌, refl, ◌∙◌, ap, some, Bool, true, false, ok, done, arith, inl, inr, Option-cases,
}
use procpool.Bee.{WorkerResult, inc_attempt}
use procpool.Hive.Thread.{settle}
use procpool.Outcome.{from_worker_result}
use procpool.Pool.{System}
use procpool.Pool.Closing.{
  Closing, Others, Step, Closes, poisoned, drains_task, drains_retry, pops, receives, times_out,
  hangs_up, sees_flag, exits, activates, refuses, settles, finishes, finish_panics, unwound, starts,
  goes_on,
}
use procpool.Pool.Closing.Leaves.{
  after, hung_up-same, exit_thread-Leaves, activate-Leaves, finish_task-Leaves,
}
use procpool.Pool.Counts.{retry_delay-cases, try_send_msg-cases}
use procpool.Pool.Settle.{settle-cases}
use procpool.Pool.Totals.{pop_retry-frame}
use procpool.Shared.{Task, Shared}
use procpool.Shared.Queue.{receive, ends}
use procpool.Shared.Retry.{queue_retry, push_retry, update_next_retry}
use procpool.Shared.Tasks.{
  send_or_store_task, send_or_store_outcome, into_unprocessed_try_send, into_unprocessed, deliver,
  try_send_msg, add_outcome,
}

module _ {ℓ} {I O E Q : Type ℓ} where
  settle-suspended :
      (now : ℕ) (x : Task I) (result : WorkerResult I O E) (s t : Shared I O E Q)
      → settle now x.ctx x.outcome_tx result s ≡ done tt t
      → t.suspended ≡ s.suspended
  unfolding send_or_store_outcome deliver add_outcome queue_retry push_retry update_next_retry
  settle-suspended now x result s t e = elim (settle-cases now x.ctx x.outcome_tx result s t e) [
    | inl (last, sent) ↦ elim (Option-cases x.outcome_tx) [
      | inl no_tx ↦ ground arith
      | inr (c, some_tx) ↦
          ground (arith, try_send_msg-cases c (from_worker_result result x.ctx.index) s)
    ]
    | inr (again, input, queued) ↦ ground (arith, retry_delay-cases (inc_attempt x.ctx) s)
  ]

  send_or_store_task-suspended :
      (x : Task I) (s t : Shared I O E Q)
      → send_or_store_task x s ≡ done tt t
      → t.suspended ≡ s.suspended
  unfolding send_or_store_task into_unprocessed_try_send into_unprocessed deliver try_send_msg
      add_outcome
  send_or_store_task-suspended x s t e = elim (Option-cases x.outcome_tx) [
    | inl no_tx ↦ ground arith
    | inr (c, some_tx) ↦ ground arith
  ]

  receive-suspended :
      (hung_up : Bool) (x : Task I) (s t : Shared I O E Q)
      → receive hung_up s ≡ done (ends (ok x)) t
      → t.suspended ≡ s.suspended
  unfolding receive
  receive-suspended hung_up x s t e = ground arith

  -- Nobody is left to resume the hive.
  Step-suspended : {s t : Closing I O E Q} → Step s t → t.shared.suspended ≡ s.shared.suspended
  Step-suspended {s} (drains_task {t} x xs p q e) =
      send_or_store_task-suspended x (record s.shared { task_rx = xs }) t e
  Step-suspended {s} (drains_retry {t} d q p rq e) =
      send_or_store_task-suspended d.value (record s.shared { retry_queue = q }) t e
  Step-suspended {s} (pops {t} now x busy e) = (pop_retry-frame now (some x) s.shared t e).1
  Step-suspended {s} (receives {t} hung_up x busy e) = receive-suspended hung_up x s.shared t e
  Step-suspended {s} (hangs_up {t} busy e) = ap (λ u. u.suspended) (hung_up-same s.shared t e)
  Step-suspended {s} (exits busy) = (exit_thread-Leaves s.shared).suspended
  Step-suspended {s} (activates pre post x split e) =
      (after (activate-Leaves x s.shared) e).suspended
  Step-suspended {s} (refuses pre post x error split e) =
      (after (activate-Leaves x s.shared) e).suspended
  Step-suspended {s} (settles {t} now pre post x result split e) =
      settle-suspended now x result s.shared t e
  Step-suspended {s} (finishes busy e) = (after (finish_task-Leaves false s.shared) e).suspended
  Step-suspended {s} (finish_panics busy e) =
      (after (finish_task-Leaves false s.shared) e).suspended
  Step-suspended {s} (unwound busy e) = (after (finish_task-Leaves true s.shared) e).suspended
  Step-suspended _ = refl

  Step-returning :
      {s t : Closing I O E Q} → s.shared.suspended ≡ true → Step s t → s.returning ≤ t.returning
  Step-returning asleep (sees_flag busy awake) = absurd (cc)
  Step-returning asleep (finishes busy e) = omega arith
  Step-returning asleep (times_out busy) = omega arith
  Step-returning asleep _ = omega arith

  -- Where the last handle of a suspended hive is dropped, the hive stays suspended, and the worker threads
  -- that are at the start of their loop stay there: in every later state at least as many threads wait
  -- at the gate, and have not looked at the flag.
  pub poisoned-suspended :
      (others : Others) (s : System I O E Q)
      → s.shared.suspended ≡ true
      → (c : Closing I O E Q) → Closes (poisoned others s) c
      → (c.shared.suspended ≡ true) × (others.returning ≤ c.returning)
  poisoned-suspended others s asleep c starts = (asleep, omega arith)
  poisoned-suspended others s asleep c (goes_on before step) =
      let (still, more) = poisoned-suspended others s asleep _ before in
      (Step-suspended step ∙ still, omega (arith, more, Step-returning still step))
