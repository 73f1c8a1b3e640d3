-- ===== src/Bee.antt =====
-- src/bee: the context of a task, the errors of a worker, and the two worker traits.
pub mod Stock
pub mod Queen
pub mod Panics
use Prim.Native.String.{String}
use procpool.Common.{
  ℕ, ◌+◌, Bool, false, Option, none, some, List, Result, ok, err, Exec, done, ◌>>=◌, pure, panic,
  collect,
}

-- A caught panic: the type of its payload (an id), and the detail.
pub record Panic : Type 0 where
  pub payload : ℕ
  pub detail : Option String

-- What a call of code that may unwind does: it returns, or unwinds with a payload.
pub data Unwind {ℓ} (A : Type ℓ) : Type ℓ where
  returned : A → Unwind A
  unwound : ℕ → Unwind A

-- `Panic::try_call`
abbrev pub try_call {ℓ} : {A : Type ℓ} → Option String → Unwind A → Result A Panic
try_call detail (returned a) = ok a
try_call detail (unwound payload) = err (record { payload = payload; detail = detail })

-- The cell behind the shared pointer `cancelled`: the flag `suspended` of a hive, or a flag of the
-- context's own (`Context::empty`).
pub data Flag : Type 0 where
  hive_suspended : Flag
  own : Bool → Flag

pub record Context : Type 0 where
  pub index : ℕ
  pub cancelled : Flag
  pub attempt : ℕ

unfoldable pub new_context : ℕ → Flag → Context
new_context index cancelled = record { index = index; cancelled = cancelled; attempt = 0 }

unfoldable pub empty_context : Context
unfolding new_context
empty_context = new_context 0 (own false)

-- The value of the hive's flag is the first argument.
unfoldable pub is_cancelled : Bool → Context → Bool
is_cancelled suspended c = elim c.cancelled [ hive_suspended ↦ suspended | own b ↦ b ]

-- `self.attempt += 1` on a `u32`, which panics on overflow in a checked build.
unfoldable pub inc_attempt : Context → Context
inc_attempt c = record c { attempt = c.attempt + 1 }

pub data ApplyError {ℓ} (I E : Type ℓ) : Type ℓ where
  fatal : Option I → E → ApplyError I E
  retryable : I → E → ApplyError I E
  cancelled : I → ApplyError I E
  panic_error : Option I → Panic → ApplyError I E

abbrev pub WorkerResult {ℓ} : Type ℓ → Type ℓ → Type ℓ → Type ℓ
WorkerResult I O E = Result O (ApplyError I E)

pub data ApplyRefError {ℓ} (E : Type ℓ) : Type ℓ where
  ref_fatal ref_retryable : E → ApplyRefError E
  ref_cancelled : ApplyRefError E

-- `From<E> for ApplyRefError<E>`
unfoldable pub ref_from {ℓ} : {E : Type ℓ} → E → ApplyRefError E
ref_from e = ref_fatal e

module _ {ℓ} {I E : Type ℓ} where
  unfoldable pub input_of : ApplyError I E → Option I
  input_of (fatal input _) = input
  input_of (retryable input _) = some input
  input_of (cancelled input) = some input
  input_of (panic_error input _) = input

  -- `ApplyError::input`, which looks at the input and leaves it.
  unfoldable pub input : ApplyError I E → Option I
  input (fatal i _) = i
  input (retryable i _) = some i
  input (cancelled i) = some i
  input (panic_error i _) = i

  -- A `panic_error` resumes the panic.
  unfoldable pub into_source {κ} : {S : Type κ} → ApplyError I E → S → Exec S (Option E)
  into_source (fatal _ error) = pure (some error)
  into_source (retryable _ error) = pure (some error)
  into_source (cancelled _) = pure none
  into_source (panic_error _ _) = panic

  unfoldable pub into_apply_error : ApplyRefError E → I → ApplyError I E
  into_apply_error (ref_fatal error) input = fatal (some input) error
  into_apply_error (ref_retryable error) input = retryable input error
  into_apply_error ref_cancelled input = cancelled input

  -- The error branch of `Worker::map`.
  unfoldable pub map_error {κ} : {S : Type κ} → ApplyError I E → S → Exec S E
  map_error (retryable _ error) = pure error
  map_error (fatal _ error) = pure error
  map_error (cancelled _) = panic
  map_error (panic_error _ _) = panic

module _ {ℓ} {I O E : Type ℓ} where
  -- `Worker::apply` for a `RefWorker`: the input outlives a panic of `apply_ref`.
  unfoldable pub apply_by_ref {κ} :
      {W : Type κ}
      → (W → I → Context → W × Unwind (Result O (ApplyRefError E)))
      → W
      → I
      → Context
      → W × WorkerResult I O E
  unfolding into_apply_error
  apply_by_ref apply_ref w input ctx =
      let (w', call) = apply_ref w input ctx in
      (
        w',
        elim (try_call none call) [
          | ok (ok output) ↦ ok output
          | ok (err error) ↦ err (into_apply_error error input)
          | err payload ↦ err (panic_error (some input) payload)
        ],
      )

  -- `Worker::map`, read to its end: the worker is the state.
  map_one {κ} :
      {W : Type κ} → (W → I → Context → W × WorkerResult I O E) → I → W → Exec W (Result O E)
  unfolding empty_context map_error
  map_one apply input w =
      let (w', result) = apply w input empty_context in
      elim result [
        | ok output ↦ done (ok output) w'
        | err error ↦ (do e ← map_error error; pure (err e)) w'
      ]

  unfoldable pub worker_map {κ} :
      {W : Type κ}
      → (W → I → Context → W × WorkerResult I O E)
      → List I
      → W
      → Exec W (List (Result O E))
  unfolding map_one collect
  worker_map apply inputs = collect (map_one apply) inputs
