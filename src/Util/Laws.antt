-- ===== src/Util/Laws.antt =====
-- src/util.rs: what `map` and `try_map` return, when the worker threads of their hive have done their
-- tasks.
use procpool.Common.{
  inl, ℕ, ◌+◌, ◌^◌, ◌<◌, ◌≡◌, refl, ap, ◌∙◌, List, [], map, length, length-range, range, some, Bool,
  true, false, Result, ok, err, arith, get_elem?,
}
use procpool.Bee.{Context, Unwind, returned, WorkerResult}
use procpool.Bee.Queen.{CloneQueen, clone_queen}
use procpool.Bee.Stock.{Callable, Closure, of, apply_caller, apply_once, or_fatal}
use procpool.Builder.{Builder}
use procpool.Builder
use procpool.Common.Maps.{get}
use procpool.Config.{Config, into_sync_config}
use procpool.Hive.{join_waits}
use procpool.Outcome.{from_worker_result}
use mathlib.Core.Option
use procpool.Outcome.Batch.{batch_from}
use procpool.Outcome.Batch.Laws.{get-batch_from}
use procpool.Pool.Frames.{Final}
use procpool.Outcome.Iter.{OutcomeIterator, read_items}
use procpool.Outcome.Iter
use procpool.Outcome.Store.{Outcomes}
use procpool.Pool.{System, init}
use procpool.Pool.Mapped.{MapRun}
use procpool.Pool.Mapped.Results.{outcomes_from, outcomes_from-ext, map-outcomes}
use procpool.Pool.Mapped.Tries.{allowed, last_result, last_result-Final}
use procpool.Shared.{Channel}
use procpool.Util
use procpool.Util.{build_with, map_with, unwrapped, into_batch, try_map, try_map_retryable}
use procpool.Util.Built.{map_with-new, unwrap-outcomes, into_batch-outcomes}

module _ {ℓ} {S I O E : Type ℓ} where
  -- What the workers of `map` may do with an input: call the closure in some state.
  abbrev pub Calls : Closure S I O → I → Context → Unwind (WorkerResult I O E) → Type ℓ
  Calls f v ctx call = (st : S) × ((apply_caller (of (record f { captured = st })) v ctx).1 ≡ call)

  -- The workers of `try_map`.
  abbrev pub TryCalls :
      Closure S I (Result O E) → I → Context → Unwind (WorkerResult I O E) → Type ℓ
  TryCalls f v ctx call = (st : S) × ((apply_once (of (record f { captured = st })) v ctx).1 ≡ call)

  Calls-steady :
      (f : Closure S I O) (g : I → O)
      → ((st : S) (v : I) → (f.code st v).1 ≡ returned (g v))
      → (v : I) (ctx : Context) (call : Unwind (WorkerResult I O E)) → Calls f v ctx call
      → call ≡ returned (ok (g v))
  unfolding apply_caller of
  Calls-steady f g steady v ctx call (st, e) = ground (arith, steady st v)

  TryCalls-steady :
      (f : Closure S I (Result O E)) (g : I → Result O E)
      → ((st : S) (v : I) → (f.code st v).1 ≡ returned (g v))
      → (v : I) (ctx : Context) (call : Unwind (WorkerResult I O E)) → TryCalls f v ctx call
      → call ≡ returned (or_fatal (g v))
  unfolding apply_once of
  TryCalls-steady f g steady v ctx call (st, e) = ground (arith, steady st v)

or_fatal-Final {ℓ} : (I : Type ℓ) {O E : Type ℓ} (r : Result O E) → Final (or_fatal {I = I} r)
unfolding or_fatal
or_fatal-Final I (ok v) = tt
or_fatal-Final I (err e) = tt

-- The configuration of the hive that `map` and `try_map` build.
abbrev pub map_config : Config → ℕ → Config
map_config defaults num_threads =
    into_sync_config (Builder.num_threads num_threads (Builder.default defaults))

module _ {ℓ} {S I O E : Type ℓ} (spawn_ok : ℕ → Bool) (all_ok : (i : ℕ) → spawn_ok i ≡ true)
    (defaults : Config) (channels : ℕ → Channel I O E) (c : ℕ)
    (live : (channels c).connected ≡ true) (fresh : (channels c).sent ≡ []) (num_threads : ℕ)
    (small : num_threads < 2 ^ 16) (inputs : List I) (few : length inputs < 2 ^ 48) where
  module _ (f : Closure S I O) (g : I → O)
      (steady : (st : S) (v : I) → (f.code st v).1 ≡ returned (g v))
      (s : System I O E (CloneQueen (Callable (Closure S I O))))
      (run : MapRun
        (Calls {E = E} f)
        c
        num_threads
        (init (map_config defaults num_threads) (clone_queen (of f)) channels)
        inputs
        s)
      (awake : s.shared.suspended ≡ false) (idle : join_waits s.shared ≡ false) where
    -- Where every thread starts and the closure returns `g v` for `v` in whatever state it is, without a
    -- panic, `map` returns `g` of the inputs in the order of the inputs, however the threads of its hive
    -- interleave: in every state that they reach after the inputs were submitted, and in which `join`
    -- would not wait, its channel has received what makes `map` return that. There are less than 2^16
    -- threads and less than 2^48 inputs.
    pub map-all :
        Util.map spawn_ok defaults channels c (λ t. (s.shared.channels c).sent) num_threads inputs f
        ≡ some (map g inputs)
    unfolding Util.map unwrapped Iter.new
    map-all =
        let os = (s.shared.channels c).sent in
        let limit = allowed (map_config defaults num_threads) in
        ground (
          arith,
          map_with-new spawn_ok all_ok channels
              (Builder.num_threads num_threads (Builder.default defaults)) (of f) inputs c os few,
          length-range 0 (length inputs),
          map-outcomes {E = E} (λ v a. ok (g v)) (Calls f) (Calls-steady f g steady) limit c
              num_threads (λ v a. inl tt) small (map_config defaults num_threads) refl
              (clone_queen (of f)) channels live fresh inputs s run (omega arith) awake idle
              (length inputs + 1) (omega arith),
          outcomes_from-ext {E = E} (λ v. last_result (λ v a. ok (g v)) limit v 0) (λ v. ok (g v))
              (λ v. last_result-Final (λ v a. ok (g v)) limit v 0 (ok (g v)) refl tt) 0 inputs,
          unwrap-outcomes {E = E} g 0 inputs (Iter.new os (range 0 (length inputs))),
        )

  module _ (f : Closure S I (Result O E)) (g : I → Result O E)
      (steady : (st : S) (v : I) → (f.code st v).1 ≡ returned (g v))
      (s : System I O E (CloneQueen (Callable (Closure S I (Result O E)))))
      (run : MapRun
        (TryCalls f)
        c
        num_threads
        (init (map_config defaults num_threads) (clone_queen (of f)) channels)
        inputs
        s)
      (awake : s.shared.suspended ≡ false) (idle : join_waits s.shared ≡ false) where
    -- Where every thread starts and the closure returns `g v` for `v` in whatever state it is, without a
    -- panic, `try_map` returns a batch, however the threads of its hive interleave: in every state that
    -- they reach after the inputs were submitted, and in which `join` would not wait. Under each index
    -- the batch has the outcome of the input at that place: the success or, without the input, the
    -- failure that `g` gives; and it has nothing else. There are less than 2^16 threads and less than
    -- 2^48 inputs.
    pub try_map-all :
        (batch : Outcomes I O E) × (try_map spawn_ok defaults channels c
            (λ t. (s.shared.channels c).sent)
            num_threads
            inputs
            f
          ≡ some batch)
        × ((k : ℕ)
            → get k batch
              ≡ Option.map (λ v. from_worker_result (or_fatal (g v)) k) (get_elem? inputs k))
    unfolding try_map Iter.new
    try_map-all =
        let work : I → WorkerResult I O E = λ v. or_fatal (g v) in
        let limit = allowed (map_config defaults num_threads) in
        let it : OutcomeIterator I O E =
          Iter.new (s.shared.channels c).sent (range 0 (length inputs)) in
        let many : length it.indices ≡ length inputs = length-range 0 (length inputs) in
        let mapped =
          map_with-new spawn_ok all_ok channels
            (Builder.num_threads num_threads (Builder.default defaults)) (of f) inputs c
            (s.shared.channels c).sent few in
        let items =
          map-outcomes (λ v a. work v) (TryCalls f) (TryCalls-steady f g steady) limit c num_threads
            (λ v a. inl (or_fatal-Final I (g v))) small (map_config defaults num_threads) refl
            (clone_queen (of f)) channels live fresh inputs s run (omega arith) awake idle
            (length it.indices + 1) (omega (arith, many)) in
        let once =
          outcomes_from-ext (λ v. last_result (λ v a. work v) limit v 0) work
            (λ v.
              last_result-Final (λ v a. work v) limit v 0 (work v) refl (or_fatal-Final I (g v)))
            0 inputs in
        (
          batch_from (outcomes_from work 0 inputs),
          rw (mapped, try_map) (into_batch-outcomes work inputs it many (items ∙ ap some once)),
          get-batch_from work inputs,
        )
