-- ===== src/Pool/Mapped.antt =====
-- src/hive/hive.rs, `map`, with src/hive/shared.rs: the runs of a hive in which one client submits
-- inputs for one channel, while the worker threads interleave.
pub mod Tries
pub mod Invariant
pub mod Moved
pub mod Settled
pub mod Runs
pub mod Results
pub mod Total
pub mod Arrived
use procpool.Common.{ℕ, ◌≡◌, List, [], ◌∷◌, ◌++◌, some, err, Option, done, get_elem?}
use procpool.Bee.{Context, Unwind, returned, unwound, WorkerResult, retryable}
use procpool.Outcome.{Outcome, from_worker_result, missing}
use procpool.Pool.{
  System, Step, Reach, prepares, reserves, makes, pops, finds_none, receives, activates, settles,
  unwinds, retry_panics, finishes, suspends, clones, takes_stored, start, later,
}
use procpool.Shared.{Task, Shared}
use procpool.Shared.Tasks.{prepare_task}

-- No case of a predicate.
abbrev pub Never {ℓ} : Type ℓ
Never = ⊥ × Unit {ℓ}

module _ {ℓ} {I O E Q : Type ℓ} (Does : I → Context → Unwind (WorkerResult I O E) → Type ℓ)
    (c threads : ℕ) where
  -- A step that makes no task, and in which a worker does what `Does` lets it do with an input.
  abbrev pub Answers : {s t : System I O E Q} → Step threads s t → Type ℓ
  Answers (prepares _ _ _ _) = Never
  Answers (reserves _ _ _) = Never
  Answers (makes _ _ _ _ _ _) = Never
  Answers (settles _ _ _ x result _ _) = Does x.input x.ctx (returned result)
  Answers (unwinds _ _ x _) = (payload : ℕ) × Does x.input x.ctx (unwound payload)
  Answers (retry_panics _ _ x input error _ _ _) =
      Does x.input x.ctx (returned (err (retryable input error)))
  Answers _ = Unit

  -- A run in which these inputs were submitted for the channel `c`, in this order.
  pub data MapRun (first : System I O E Q) : List I → System I O E Q → Type (ℓ + 1) where
    opens : MapRun first [] first
    submits :
        {inputs : List I} {s : System I O E Q} {t : Shared I O E Q} (input : I) (x : Task I)
        → MapRun first inputs s
        → prepare_task input (some c) s.shared ≡ done x t
        → MapRun first
            (inputs ++ input ∷ [])
            (record s { shared = t; prepared = x ∷ s.prepared; created = x.ctx.index ∷ s.created })
    works :
        {inputs : List I} {s t : System I O E Q}
        → MapRun first inputs s
        → (step : Step threads s t) → Answers step
        → MapRun first inputs t

  pub MapRun-Reach :
      {first : System I O E Q} {inputs : List I} {s : System I O E Q}
      → MapRun first inputs s
      → Reach threads first s
  MapRun-Reach opens = start
  MapRun-Reach (submits input x run e) = later (MapRun-Reach run) (prepares input (some c) x e)
  MapRun-Reach (works run step answers) = later (MapRun-Reach run) step
