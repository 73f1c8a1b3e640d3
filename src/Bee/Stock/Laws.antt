-- ===== src/Bee/Stock/Laws.antt =====
-- src/bee/stock/call.rs: what the stock workers make of errors and panics of their closures.
use procpool.Common.{◌≡◌, refl, none, some, Result, ok, err}
use procpool.Bee.{
  Unwind, returned, unwound, Context, WorkerResult, apply_by_ref, panic_error, fatal,
}
use procpool.Bee.Stock.{
  Closure, Callable, after_call, or_fatal, or_ref_fatal, apply_once, apply_ref_caller,
}

module _ {ℓ} {I O E : Type ℓ} where
  -- What a worker that holds on to the input of a call makes of it.
  abbrev pub recovered : I → Unwind (Result O E) → WorkerResult I O E
  recovered input (returned (ok output)) = ok output
  recovered input (returned (err error)) = err (fatal (some input) error)
  recovered input (unwound payload) =
      err (panic_error (some input) (record { payload = payload; detail = none }))

  -- What a worker that gave its input away makes of it; a panic goes on.
  abbrev pub consumed : Unwind (Result O E) → Unwind (WorkerResult I O E)
  consumed (returned (ok output)) = returned (ok output)
  consumed (returned (err error)) = returned (err (fatal none error))
  consumed (unwound payload) = unwound payload

  after_call-recovered :
      {W : Type ℓ} (w : W) (input : I) (ctx : Context) (r : Unwind (Result O E))
      → (apply_by_ref (λ v i x. (v, after_call or_ref_fatal r)) w input ctx).1 ≡ recovered input r
  unfolding apply_by_ref or_ref_fatal
  after_call-recovered w input ctx (returned (ok output)) = refl
  after_call-recovered w input ctx (returned (err error)) = refl
  after_call-recovered w input ctx (unwound payload) = refl

  after_call-consumed : (r : Unwind (Result O E)) → after_call or_fatal r ≡ consumed r
  unfolding or_fatal
  after_call-consumed (returned (ok output)) = refl
  after_call-consumed (returned (err error)) = refl
  after_call-consumed (unwound payload) = refl

module _ {ℓ} {S I O E : Type ℓ} where
  -- For the same closure and input, a `RefCaller` never unwinds and gives the input back with every
  -- error, be it returned or a panic that it caught; a `OnceCaller` returns the same outputs, loses the
  -- input of every error, and lets a panic unwind its thread. Both keep what the closure did to its
  -- state.
  pub apply_ref_caller-apply_once :
      (w : Callable (Closure S I (Result O E))) (input : I) (ctx : Context)
      → (let (state, call) = w.f.code w.f.captured input in
          (apply_by_ref apply_ref_caller w input ctx
            ≡ (record { f = record w.f { captured = state } }, recovered input call))
          × (apply_once w input ctx
              ≡ (record { f = record w.f { captured = state } }, consumed call)))
  unfolding apply_by_ref apply_ref_caller apply_once
  apply_ref_caller-apply_once w input ctx =
      let (state, call) = w.f.code w.f.captured input in
      let w' : Callable (Closure S I (Result O E)) = record {
        f = record w.f { captured = state };
      } in
      (
        (λ i. (w', after_call-recovered w' input ctx call i)),
        (λ i. (w', after_call-consumed call i)),
      )
