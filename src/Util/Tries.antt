-- ===== src/Util/Tries.antt =====
-- src/util.rs: what `try_map_retryable` returns, when the worker threads of its hive have done their
-- tasks.
use procpool.Common.{
  ◌≤◌, ℕ, ◌+◌, ◌^◌, ◌<◌, ◌≡◌, List, [], length, length-range, range, some, Bool, true, false, ◌==◌,
  Bool-cases, inl, inr, arith, get_elem?,
}
use procpool.Bee.{Context, Unwind, returned, WorkerResult}
use procpool.Bee.Queen.{CloneQueen, clone_queen}
use procpool.Bee.Stock.{Callable, Closure, of, apply_retry}
use procpool.Atomic.{set_option, get_option, into_sync}
use procpool.Builder.{Builder}
use procpool.Builder
use procpool.Common.Maps.{get}
use procpool.Config.{Config, into_sync_config, set_max_retries}
use procpool.Hive.{join_waits}
use procpool.Outcome.{from_worker_result}
use mathlib.Core.Option
use procpool.Outcome.Batch.{batch_from}
use procpool.Outcome.Batch.Laws.{get-batch_from}
use procpool.Outcome.Iter.{OutcomeIterator, read_items}
use procpool.Outcome.Iter
use procpool.Outcome.Store.{Outcomes}
use procpool.Pool.{System, init}
use procpool.Pool.Mapped.{MapRun}
use procpool.Pool.Mapped.Results.{outcomes_from, map-outcomes}
use procpool.Pool.Mapped.Tries.{allowed, last_result}
use procpool.Shared.{Channel}
use procpool.Util.{try_map_retryable}
use procpool.Util.Built.{map_with-new, into_batch-outcomes}

module _ {ℓ} {S I O E : Type ℓ} where
  -- The workers of `try_map_retryable`.
  abbrev pub RetryCalls :
      Closure S (I × Context) (WorkerResult I O E)
      → I
      → Context
      → Unwind (WorkerResult I O E)
      → Type ℓ
  RetryCalls f v ctx call =
      (st : S) × ((apply_retry (of (record f { captured = st })) v ctx).1 ≡ call)

  RetryCalls-steady :
      (f : Closure S (I × Context) (WorkerResult I O E)) (g : I → ℕ → WorkerResult I O E)
      → ((st : S) (v : I) (ctx : Context) → (f.code st (v, ctx)).1 ≡ returned (g v ctx.attempt))
      → (v : I) (ctx : Context) (call : Unwind (WorkerResult I O E)) → RetryCalls f v ctx call
      → call ≡ returned (g v ctx.attempt)
  unfolding apply_retry of
  RetryCalls-steady f g steady v ctx call (st, e) = ground (arith, steady st v ctx)

-- The configuration of the hive that `try_map_retryable` builds.
abbrev pub retry_config : Config → ℕ → ℕ → Config
retry_config defaults num_threads max_retries =
    into_sync_config
      (Builder.max_retries max_retries (Builder.num_threads num_threads (Builder.default defaults)))

allowed-max_retries :
    (m : ℕ) (b : Builder) → allowed (into_sync_config (Builder.max_retries m b)) ≡ m
unfolding into_sync_config Builder.max_retries set_max_retries set_option get_option into_sync
allowed-max_retries m b = elim (Bool-cases (m == 0)) [
  | inl none_left ↦ ground (arith, none_left)
  | inr some_left ↦ ground (arith, some_left)
]

allowed-retry_config :
    (defaults : Config) (num_threads max_retries : ℕ)
    → allowed (retry_config defaults num_threads max_retries) ≡ max_retries
allowed-retry_config defaults num_threads max_retries =
    allowed-max_retries max_retries (Builder.num_threads num_threads (Builder.default defaults))

module _ {ℓ} {S I O E : Type ℓ} (spawn_ok : ℕ → Bool) (all_ok : (i : ℕ) → spawn_ok i ≡ true)
    (defaults : Config) (channels : ℕ → Channel I O E) (c : ℕ)
    (live : (channels c).connected ≡ true) (fresh : (channels c).sent ≡ [])
    (num_threads max_retries : ℕ) (few_tries : max_retries ≤ 64) (small : num_threads < 2 ^ 16)
    (inputs : List I) (few : length inputs < 2 ^ 48)
    (f : Closure S (I × Context) (WorkerResult I O E)) (g : I → ℕ → WorkerResult I O E)
    (steady : (st : S) (v : I) (ctx : Context)
      → (f.code st (v, ctx)).1 ≡ returned (g v ctx.attempt))
    (s : System I O E (CloneQueen (Callable (Closure S (I × Context) (WorkerResult I O E)))))
    (run : MapRun
      (RetryCalls f)
      c
      num_threads
      (init (retry_config defaults num_threads max_retries) (clone_queen (of f)) channels)
      inputs
      s)
    (awake : s.shared.suspended ≡ false) (idle : join_waits s.shared ≡ false) where
  -- Where every thread starts and the closure returns `g v a` for the input `v` at the attempt `a` in
  -- whatever state it is, without a panic, `try_map_retryable` returns a batch, however the threads of its
  -- hive interleave: in every state that they reach after the inputs were submitted, and in which `join`
  -- would not wait. Under each index the batch has the outcome of the last result of the input at that
  -- place, and it has nothing else: a retryable result is tried again, with the input that it holds and
  -- the next attempt, up to `max_retries` times, at most 64. There are less than 2^16 threads and less
  -- than 2^48 inputs. The hive, which only this call has, is not suspended.
  pub try_map_retryable-all :
      (batch : Outcomes I O E) × (try_map_retryable spawn_ok defaults channels c
          (λ t. (s.shared.channels c).sent)
          num_threads
          max_retries
          inputs
          f
        ≡ some batch)
      × ((k : ℕ)
          → get k batch
            ≡ Option.map
                (λ v. from_worker_result (last_result g max_retries v 0) k)
                (get_elem? inputs k))
  unfolding try_map_retryable Iter.new
  try_map_retryable-all =
      let work : I → WorkerResult I O E = λ v. last_result g max_retries v 0 in
      let it : OutcomeIterator I O E =
        Iter.new (s.shared.channels c).sent (range 0 (length inputs)) in
      let many : length it.indices ≡ length inputs = length-range 0 (length inputs) in
      let mapped =
        map_with-new spawn_ok all_ok channels
          (Builder.max_retries max_retries
            (Builder.num_threads num_threads (Builder.default defaults)))
          (of f) inputs c (s.shared.channels c).sent few in
      let items =
        map-outcomes g (RetryCalls f) (RetryCalls-steady f g steady) max_retries c num_threads
          (λ v a. inr few_tries) small (retry_config defaults num_threads max_retries)
          (allowed-retry_config defaults num_threads max_retries) (clone_queen (of f)) channels live
          fresh inputs s run (omega arith) awake idle (length it.indices + 1)
          (omega (arith, many)) in
      (
        batch_from (outcomes_from work 0 inputs),
        rw (mapped, try_map_retryable) (into_batch-outcomes work inputs it many items),
        get-batch_from work inputs,
      )
