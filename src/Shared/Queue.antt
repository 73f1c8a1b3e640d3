-- ===== src/Shared/Queue.antt =====
-- src/hive/shared.rs, module `retry`: taking the next task. One round of the loop of `next_task` is a
-- step: the clock, and whether every sender of tasks is gone, are arguments.
use procpool.Common.{
  ℕ, [], ◌∷◌, Option, none, some, Bool, false, leb, if◌then◌else◌, Result, ok, err, done, ◌>>=◌,
  ◌>>◌, pure,
}
use mathlib.Core.Option
use procpool.Counter
use procpool.Counter.{CounterError}
use procpool.Delay.{try_pop, next_available}
use procpool.Shared.{Task, Shared, Call, queue_bits, on_num_tasks}
use procpool.Shared.Retry.{update_next_retry}

pub data NextTaskError : Type 0 where
  disconnected poisoned : NextTaskError
  invalid_counter : CounterError → NextTaskError

-- How a round ends: blocked at the resume gate, in a time-out that starts the next round, or with
-- the result of the loop.
pub data Turn {ℓ} (I : Type ℓ) : Type ℓ where
  suspended timed_out : Turn I
  ends : Result (Task I) NextTaskError → Turn I

module _ {ℓ} {I O E Q : Type ℓ} where
  abbrev pub has_retry : ℕ → Shared I O E Q → Bool
  has_retry now s = Option.get_or (Option.map (λ next_retry. leb next_retry now) s.next_retry) false

  -- The retry that is due, if any. Without one the queue and the next retry stay.
  unfoldable pub pop_retry : ℕ → Call I O E Q (Option (Task I))
  unfolding try_pop next_available update_next_retry
  pop_retry now s =
      if has_retry now s
      then (let (popped, q) = try_pop now s.retry_queue in
          elim popped [
            | none ↦ done none (record s { retry_queue = q })
            | some t ↦
                (do update_next_retry (next_available q); pure (some t))
                  (record s { retry_queue = q })
          ])
      else done none s

  -- `recv_timeout` on the queue of tasks
  unfoldable pub receive : Bool → Call I O E Q (Turn I)
  receive hung_up s = elim s.task_rx [
    | t ∷ ts ↦ done (ends (ok t)) (record s { task_rx = ts })
    | [] ↦ if hung_up then done (ends (err disconnected)) s else done timed_out s
  ]

  -- The `and_then` behind the loop: the task becomes active.
  unfoldable pub activate : Turn I → Call I O E Q (Turn I)
  unfolding Counter.transfer
  activate (ends (ok t)) = do
    moved ← on_num_tasks (Counter.transfer queue_bits 1)
    elim moved [ ok _ ↦ pure (ends (ok t)) | err e ↦ pure (ends (err (invalid_counter e))) ]
  activate turn = pure turn

  unfoldable pub next_task : ℕ → Bool → Call I O E Q (Turn I)
  unfolding pop_retry receive activate
  next_task now hung_up s =
      if s.suspended
      then done suspended s
      else if s.poisoned
      then done (ends (err poisoned)) s
      else (do
        popped ← pop_retry now
        turn ← elim popped [ some t ↦ pure (ends (ok t)) | none ↦ receive hung_up ]
        activate turn)
          s
