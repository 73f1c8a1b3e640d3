-- ===== src/Shared/Plain/Laws.antt =====
-- src/hive/shared.rs and src/hive/hive.rs: the variants with and without the feature `retry`.
use procpool.Common.{
  ℕ, ◌+◌, ◌^◌, ◌<◌, ◌≡◌, refl, Option, none, some, Bool, false, ok, err, done, arith, ◌>>=◌, ◌∙◌,
  ap, pure, panicked, if◌then◌else◌,
}
use procpool.Bee.{Context, WorkerResult, retryable, fatal, cancelled, panic_error}
use procpool.Hive.Thread.{settle}
use procpool.Pool.Counts.{Counts, transfer_word}
use procpool.Pool.Frames.{Final}
use procpool.Shared.{Shared}
use procpool.Shared.Plain.{activate_plain, next_task_plain, settle_plain}
use procpool.Shared.Queue.{
  next_task, pop_retry, has_retry, receive, activate, suspended, poisoned, ends,
}

module _ {ℓ} {I O E Q : Type ℓ} where
  -- With a result that is not retryable `execute` is the same call.
  pub settle-settle_plain :
      (now : ℕ) (ctx : Context) (tx : Option ℕ) (result : WorkerResult I O E) (s : Shared I O E Q)
      → Final result
      → settle now ctx tx result s ≡ settle_plain ctx tx result s
  unfolding settle settle_plain
  settle-settle_plain now ctx tx (ok v) s f = refl
  settle-settle_plain now ctx tx (err (retryable i x)) s f = absurd f
  settle-settle_plain now ctx tx (err (fatal i x)) s f = refl
  settle-settle_plain now ctx tx (err (cancelled i)) s f = refl
  settle-settle_plain now ctx tx (err (panic_error i p)) s f = refl

  pop_retry-early :
      (now : ℕ) (s : Shared I O E Q) → has_retry now s ≡ false → pop_retry now s ≡ done none s
  unfolding pop_retry
  pop_retry-early now s h = rw (h, pop_retry) refl

  round_plain :
      (now : ℕ) (hung_up : Bool) (s : Shared I O E Q)
      → has_retry now s ≡ false
      → next_task now hung_up s ≡ (
          if s.suspended
          then done suspended s
          else if s.poisoned
          then done (ends (err poisoned)) s
          else (do turn ← receive hung_up; activate turn) s)
  unfolding next_task
  round_plain now hung_up s h =
      ap
        (λ m.
          if s.suspended
          then done suspended s
          else if s.poisoned
          then done (ends (err poisoned)) s
          else elim m [
            | panicked t ↦ panicked t
            | done popped t ↦
                (do
                  turn ← elim popped [ some x ↦ pure (ends (ok x)) | none ↦ receive hung_up ]
                  activate turn)
                  t
          ])
        (pop_retry-early now s h)

  -- Where no retry is scheduled, at least one task is counted as queued and the count of the active
  -- tasks has room for one more, a round of `next_task` is the same call with and without the feature
  -- `retry`: it blocks, times out, ends in an error or takes the same task, and leaves the same state.
  pub next_task-next_task_plain :
      (now q a : ℕ) (hung_up : Bool) (s : Shared I O E Q)
      → s.next_retry ≡ none
      → Counts s q a
      → (0 < q)
      → (a + 1 < 2 ^ 16)
      → next_task now hung_up s ≡ next_task_plain hung_up s
  unfolding next_task_plain receive activate activate_plain
  next_task-next_task_plain now q a hung_up s unset c queued room =
      round_plain now hung_up s (ground (arith, unset)) ∙ ground (arith, transfer_word c 1)
