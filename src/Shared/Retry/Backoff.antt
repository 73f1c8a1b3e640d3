-- ===== src/Shared/Retry/Backoff.antt =====
-- src/hive/shared.rs, `queue_retry`: the delay before an attempt is made again.
use procpool.Common.{ℕ, ◌-◌, ◌*◌, ◌^◌, ◌≤◌, ◌≡◌, some, ltb, if◌then◌else◌, done, panicked, arith}
use procpool.Atomic.{get_option}
use procpool.Bee.{Context}
use procpool.Shared.{Shared}
use procpool.Shared.Retry.{retry_delay}

module _ {ℓ} {I O E Q : Type ℓ} where
  -- With a retry factor set, and from the first retry on, the delay is the factor times 2 to the
  -- power of the attempt less one, capped at the greatest u64; from attempt 65 on there is no
  -- delay but a panic.
  pub retry_delay-backoff :
      (ctx : Context) (factor : ℕ) (s : Shared I O E Q)
      → get_option s.config.retry_factor ≡ some factor
      → 1 ≤ ctx.attempt
      → retry_delay ctx s ≡ (
          if ltb 64 ctx.attempt
          then panicked s
          else done
              (if ltb (factor * 2 ^ (ctx.attempt - 1)) (2 ^ 64)
                then factor * 2 ^ (ctx.attempt - 1)
                else 2 ^ 64 - 1)
              s)
  unfolding retry_delay
  retry_delay-backoff ctx factor s set tried = ground (arith, set)
