-- ===== src/Outcome.antt =====
-- src/hive/outcome/outcome.rs: the outcome of a task, with the feature `retry`.
pub mod Store
pub mod Iter
pub mod Batch
pub mod Adapters
use Prim.Native.Nat.{compare, Ordering}
use procpool.Common.{
  ℕ, Option, none, some, Bool, true, false, ◌==◌, Result, ok, err, Exec, done, panicked, pure,
  panic, ◌>>=◌,
}
use procpool.Bee.{Panic, ApplyError, fatal, retryable, cancelled, panic_error, WorkerResult}

pub data Outcome {ℓ} (I O E : Type ℓ) : Type ℓ where
  success : O → ℕ → Outcome I O E
  failure : Option I → E → ℕ → Outcome I O E
  unprocessed : I → ℕ → Outcome I O E
  missing : ℕ → Outcome I O E
  panic_outcome : Option I → Panic → ℕ → Outcome I O E
  max_retries_attempted : I → E → ℕ → Outcome I O E

module _ {ℓ} {I O E : Type ℓ} where
  unfoldable pub from_worker_result : WorkerResult I O E → ℕ → Outcome I O E
  from_worker_result (ok value) index = success value index
  from_worker_result (err (retryable input error)) index = max_retries_attempted input error index
  from_worker_result (err (fatal input error)) index = failure input error index
  from_worker_result (err (cancelled input)) index = unprocessed input index
  from_worker_result (err (panic_error input payload)) index = panic_outcome input payload index

  unfoldable pub is_success : Outcome I O E → Bool
  is_success (success _ _) = true
  is_success _ = false

  unfoldable pub is_unprocessed : Outcome I O E → Bool
  is_unprocessed (unprocessed _ _) = true
  is_unprocessed _ = false

  unfoldable pub is_failure : Outcome I O E → Bool
  is_failure (failure _ _ _) = true
  is_failure (panic_outcome _ _ _) = true
  is_failure (max_retries_attempted _ _ _) = true
  is_failure _ = false

  unfoldable pub index : Outcome I O E → ℕ
  index (success _ i) = i
  index (failure _ _ i) = i
  index (unprocessed _ i) = i
  index (missing i) = i
  index (panic_outcome _ _ i) = i
  index (max_retries_attempted _ _ i) = i

  unfoldable pub unwrap {κ} : {S : Type κ} → Outcome I O E → S → Exec S O
  unwrap (success value _) = pure value
  unwrap _ = panic

  unfoldable pub into_input : Outcome I O E → Option I
  into_input (success _ _) = none
  into_input (failure input _ _) = input
  into_input (unprocessed input _) = some input
  into_input (missing _) = none
  into_input (panic_outcome input _ _) = input
  into_input (max_retries_attempted input _ _) = some input

  unfoldable pub into_error {κ} : {S : Type κ} → Outcome I O E → S → Exec S E
  into_error (failure _ error _) = pure error
  into_error (max_retries_attempted _ error _) = pure error
  into_error _ = panic

  -- `PartialEq::eq`
  unfoldable pub eq : Outcome I O E → Outcome I O E → Bool
  eq (success _ a) (success _ b) = a == b
  eq (failure _ _ a) (failure _ _ b) = a == b
  eq (unprocessed _ a) (unprocessed _ b) = a == b
  eq (panic_outcome _ _ a) (panic_outcome _ _ b) = a == b
  eq (max_retries_attempted _ _ a) (max_retries_attempted _ _ b) = a == b
  eq _ _ = false

  unfoldable pub cmp : Outcome I O E → Outcome I O E → Ordering
  unfolding index
  cmp a b = compare (index a) (index b)

  unfoldable pub partial_cmp : Outcome I O E → Outcome I O E → Option Ordering
  unfolding cmp
  partial_cmp a b = some (cmp a b)

  -- `From<Outcome<W>> for TaskResult<W>` (iter.rs)
  unfoldable pub into_result {κ} : {S : Type κ} → Outcome I O E → S → Exec S (Result O E)
  unfolding into_error
  into_result (success value _) = pure (ok value)
  into_result o = do e ← into_error o; pure (err e)
