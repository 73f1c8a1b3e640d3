-- ===== src/Bee/Stock.antt =====
-- src/bee/stock: the workers that wrap a closure, run the closures that they are given, or return
-- their input.
pub mod Laws
use procpool.Common.{Option, none, Result, ok, err}
use procpool.Bee.{
  Panic, Unwind, returned, unwound, Context, fatal, panic_error, WorkerResult, ApplyRefError,
  ref_fatal,
}
use procpool.Bee.Panics.{try_call_boxed}

-- An `FnMut`: its code, over the state that it captures.
pub record Closure {ℓ κ μ} (S : Type ℓ) (A : Type κ) (R : Type μ) : Type (ℓ ⊔ κ ⊔ μ) where
  pub code : S → A → S × Unwind R
  pub captured : S

pub record Callable {ℓ} (F : Type ℓ) : Type ℓ where
  pub f : F

unfoldable pub of {ℓ} : {F : Type ℓ} → F → Callable F
of f = record { f = f }

-- `Clone` of a `Callable`; how its closure is cloned is an argument.
unfoldable pub clone_callable {ℓ} : {F : Type ℓ} → (F → F) → Callable F → Callable F
unfolding of
clone_callable clone_f c = of (clone_f c.f)

module _ {ℓ κ μ} {S : Type ℓ} {A : Type κ} {R : Type μ} where
  -- `(self.0.f)(a)`: the worker with the closure's new state, and what the call does.
  unfoldable pub call_mut : Callable (Closure S A R) → A → Callable (Closure S A R) × Unwind R
  call_mut w a =
      let (captured, result) = w.f.code w.f.captured a in
      (record { f = record w.f { captured = captured } }, result)

module _ {ℓ} {O E : Type ℓ} where
  -- `map_err(|error| ApplyError::Fatal { error, input: None })`
  unfoldable pub or_fatal : {I : Type ℓ} → Result O E → WorkerResult I O E
  or_fatal (ok output) = ok output
  or_fatal (err error) = err (fatal none error)

  -- `map_err(|error| ApplyRefError::Fatal(error))`
  unfoldable pub or_ref_fatal : Result O E → Result O (ApplyRefError E)
  or_ref_fatal (ok output) = ok output
  or_ref_fatal (err error) = err (ref_fatal error)

abbrev pub after_call {ℓ κ} : {R : Type ℓ} {B : Type κ} → (R → B) → Unwind R → Unwind B
after_call g (returned r) = returned (g r)
after_call g (unwound payload) = unwound payload

module _ {ℓ} {S I O E : Type ℓ} where
  -- `Caller::apply`
  unfoldable pub apply_caller :
      Callable (Closure S I O)
      → I
      → Context
      → Callable (Closure S I O) × Unwind (WorkerResult I O E)
  unfolding call_mut
  apply_caller w input ctx = let (w', output) = call_mut w input in (w', after_call ok output)

  -- `OnceCaller::apply`
  unfoldable pub apply_once :
      Callable (Closure S I (Result O E))
      → I
      → Context
      → Callable (Closure S I (Result O E)) × Unwind (WorkerResult I O E)
  unfolding call_mut or_fatal
  apply_once w input ctx = let (w', result) = call_mut w input in (w', after_call or_fatal result)

  -- `RefCaller::apply_ref`
  unfoldable pub apply_ref_caller :
      Callable (Closure S I (Result O E))
      → I
      → Context
      → Callable (Closure S I (Result O E)) × Unwind (Result O (ApplyRefError E))
  unfolding call_mut or_ref_fatal
  apply_ref_caller w input ctx =
      let (w', result) = call_mut w input in (w', after_call or_ref_fatal result)

  -- `RetryCaller::apply`: the closure has the context too.
  unfoldable pub apply_retry :
      Callable (Closure S (I × Context) (WorkerResult I O E))
      → I
      → Context
      → Callable (Closure S (I × Context) (WorkerResult I O E)) × Unwind (WorkerResult I O E)
  unfolding call_mut
  apply_retry w input ctx = call_mut w (input, ctx)

-- A `Thunk`: a boxed closure that is called once.
pub record Thunk {ℓ} (T : Type ℓ) : Type ℓ where
  pub call_box : Unit {0} → Unwind T

unfoldable pub thunk_of {ℓ} : {T : Type ℓ} → (Unit {0} → Unwind T) → Thunk T
thunk_of f = record { call_box = f }

module _ {ℓ} {T E : Type ℓ} where
  -- `ThunkWorker::apply`
  unfoldable pub apply_thunk : Thunk T → Context → Unwind (WorkerResult (Thunk T) T E)
  apply_thunk f ctx = after_call ok (f.call_box tt)

  -- `FunkWorker::apply`
  unfoldable pub apply_funk :
      Thunk (Result T E) → Context → Unwind (WorkerResult (Thunk (Result T E)) T E)
  unfolding or_fatal
  apply_funk f ctx = after_call or_fatal (f.call_box tt)

  -- `PunkWorker::apply`: a panic of the thunk is caught (`Panic::try_call_boxed`).
  unfoldable pub apply_punk : Thunk T → Context → WorkerResult (Thunk T) T E
  unfolding try_call_boxed
  apply_punk f ctx = elim (try_call_boxed none (f.call_box tt)) [
    | ok output ↦ ok output
    | err payload ↦ err (panic_error none payload)
  ]

  -- `EchoWorker::apply`
  unfoldable pub apply_echo : T → Context → WorkerResult T T E
  apply_echo input ctx = ok input
