-- ===== src/Shared/Retry.antt =====
-- src/hive/shared.rs, module `retry`: queueing a task again. The clock is an argument.
pub mod Bound
pub mod Backoff
use procpool.Common.{
  ℕ, suc, ◌+◌, ◌-◌, ◌*◌, ◌^◌, ◌≤◌, ◌≡◌, Option, none, some, Bool, true, false, ltb, if◌then◌else◌,
  Exec, done, ◌>>=◌, ◌>>◌, pure, modify, unwrap_option, unwrap_result,
}
use mathlib.Core.Option
use procpool.Atomic.{get_option}
use procpool.Bee.{Context}
use procpool.Counter
use procpool.Counter.{checked_sub}
use procpool.Delay.{push}
use procpool.Shared.{Task, Shared, Call, queue_bits, on_num_tasks}
use procpool.Shared.Tasks.{new_task}

-- `2u64.checked_pow(k)`
abbrev pub checked_pow_two : ℕ → Option ℕ
checked_pow_two k = if ltb k 64 then some (2 ^ k) else none

abbrev pub u64_max : ℕ
u64_max = 2 ^ 64 - 1

-- `factor.checked_mul(multiplier).or(Some(u64::MAX))`
abbrev pub saturating_mul : ℕ → ℕ → ℕ
saturating_mul a b = if ltb (a * b) (2 ^ 64) then a * b else u64_max

-- The next retry after `update_next_retry`.
unfoldable pub updated_next_retry : Option ℕ → Option ℕ → Option ℕ
updated_next_retry (some new_val) none = some new_val
updated_next_retry (some new_val) (some cur_val) =
    if ltb new_val cur_val then some new_val else some cur_val
updated_next_retry none current = none

module _ {ℓ} {I O E Q : Type ℓ} where
  unfoldable pub can_retry : Context → Shared I O E Q → Bool
  unfolding get_option
  can_retry ctx s =
      Option.get_or
        (Option.map (λ max_retries. ltb ctx.attempt max_retries) (get_option s.config.max_retries))
        false

  unfoldable pub update_next_retry : Option ℕ → Call I O E Q (Unit {0})
  unfolding updated_next_retry
  update_next_retry instant =
      modify λ s. record s { next_retry = updated_next_retry instant s.next_retry }

  -- The delay, in nanoseconds. The subtraction panics at the attempt 0 where overflow is checked.
  unfoldable pub retry_delay : Context → Call I O E Q ℕ
  unfolding get_option
  retry_delay ctx s = elim (get_option s.config.retry_factor) [
    | none ↦ done 0 s
    | some factor ↦
        (do
          exponent ← unwrap_option (checked_sub ctx.attempt 1)
          multiplier ← unwrap_option (checked_pow_two exponent)
          pure (saturating_mul factor multiplier))
          s
  ]

  -- The entry in the retry queue: the instant at which it is available.
  unfoldable pub push_retry : ℕ → Task I → ℕ → Call I O E Q ℕ
  unfolding push
  push_retry now t delay s =
      let (available_at, q) = push now t delay s.retry_queue in
      done available_at (record s { retry_queue = q })

  unfoldable pub queue_retry : ℕ → I → Context → Option ℕ → Call I O E Q (Unit {0})
  unfolding push_retry update_next_retry new_task
  queue_retry now input ctx outcome_tx = do
    delay ← retry_delay ctx
    prev ← on_num_tasks (Counter.increment_left queue_bits 1)
    _ ← unwrap_result prev
    available_at ← push_retry now (new_task input ctx outcome_tx) delay
    update_next_retry (some available_at)
