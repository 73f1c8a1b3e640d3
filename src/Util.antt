-- ===== src/Util.antt =====
-- src/util.rs: a hive for one call. The system is the first arguments: which threads start, the global
-- defaults, the channels, the number of the one that is made, and what its receiver yields. Where the
-- call panics, the result is `none`.
pub mod Built
pub mod Laws
pub mod Tries
use procpool.Common.{
  ℕ, ◌+◌, List, length, Option, none, some, Bool, Result, ok, err, Exec, done, panicked, collect,
  leb, if◌then◌else◌,
}
use procpool.Bee.{Context, WorkerResult}
use procpool.Bee.Queen.{CloneQueen, clone_queen}
use procpool.Bee.Stock.{Callable, Closure, of}
use procpool.Builder.{Builder}
use procpool.Builder
use procpool.Config.{Config}
use procpool.Hive.{SpawnError}
use procpool.Hive.Blocking
use procpool.Husk.{build}
use procpool.Outcome.{Outcome, unwrap}
use procpool.Outcome.Batch.{batch_from}
use procpool.Outcome.Iter.{OutcomeIterator, read_items}
use procpool.Outcome.Store.{Outcomes}
use procpool.Shared.{Channel, Shared}

-- `Builder::build_with`
unfoldable pub build_with {ℓ} :
    {I O E W : Type ℓ}
    → (ℕ → Bool)
    → (ℕ → Channel I O E)
    → W
    → Builder
    → Result (Shared I O E (CloneQueen W)) SpawnError
unfolding build clone_queen
build_with spawn_ok channels worker b = build spawn_ok b (clone_queen worker) channels

-- `Builder::build_default` and `Builder::build_with_default`, with what `Default` makes.
unfoldable pub build_default {ℓ} :
    {I O E Q : Type ℓ}
    → (ℕ → Bool)
    → (ℕ → Channel I O E)
    → Q
    → Builder
    → Result (Shared I O E Q) SpawnError
unfolding build
build_default spawn_ok channels default_queen b = build spawn_ok b default_queen channels

module _ {ℓ} {I O E : Type ℓ} where
  -- What an iterator yields, up to one item more than it has indices. One with so many items has no end:
  -- it repeats a missing outcome.
  abbrev pub items : OutcomeIterator I O E → Option (List (Outcome I O E))
  items it = read_items (length it.indices + 1) it

  -- `.map(Outcome::unwrap).collect()`, which panics at the first outcome that is not a success.
  unfoldable pub unwrapped : OutcomeIterator I O E → Option (List O)
  unfolding read_items collect unwrap
  unwrapped it = elim (items it) [
    | none ↦ none
    | some os ↦ elim (collect unwrap os it) [ done outputs _ ↦ some outputs | panicked _ ↦ none ]
  ]

  -- `.into()`, an `OutcomeBatch`; it does not return if the iterator has no end.
  unfoldable pub into_batch : OutcomeIterator I O E → Option (Outcomes I O E)
  unfolding read_items batch_from
  into_batch it = elim (items it) [
    | none ↦ none
    | some os ↦ if leb (length os) (length it.indices) then some (batch_from os) else none
  ]

  module _ {W : Type ℓ} (spawn_ok : ℕ → Bool) (channels : ℕ → Channel I O E) (tx : ℕ)
      (arrived : Shared I O E (CloneQueen W) → List (Outcome I O E)) where
    -- `.build_with(worker).unwrap().map(inputs)`
    unfoldable pub map_with : W → Builder → List I → Option (OutcomeIterator I O E)
    unfolding build_with Blocking.map
    map_with worker b inputs = elim (build_with spawn_ok channels worker b) [
      | err e ↦ none
      | ok s ↦ elim (Blocking.map tx arrived inputs s) [ done it _ ↦ some it | panicked _ ↦ none ]
    ]

module _ {ℓ} {S I O E : Type ℓ} (spawn_ok : ℕ → Bool) (defaults : Config)
    (channels : ℕ → Channel I O E) (tx : ℕ) where
  -- `map`, with a `Caller`
  unfoldable pub map :
      (Shared I O E (CloneQueen (Callable (Closure S I O))) → List (Outcome I O E))
      → ℕ
      → List I
      → Closure S I O
      → Option (List O)
  unfolding map_with unwrapped of Builder.num_threads Builder.default
  map arrived num_threads inputs f =
      elim (map_with spawn_ok channels tx arrived (of f)
        (Builder.num_threads num_threads (Builder.default defaults)) inputs) [
          | none ↦ none
          | some it ↦ unwrapped it
        ]

  -- `try_map`, with a `OnceCaller`
  unfoldable pub try_map :
      (Shared I O E (CloneQueen (Callable (Closure S I (Result O E)))) → List (Outcome I O E))
      → ℕ
      → List I
      → Closure S I (Result O E)
      → Option (Outcomes I O E)
  unfolding map_with into_batch of Builder.num_threads Builder.default
  try_map arrived num_threads inputs f =
      elim (map_with spawn_ok channels tx arrived (of f)
        (Builder.num_threads num_threads (Builder.default defaults)) inputs) [
          | none ↦ none
          | some it ↦ into_batch it
        ]

  -- `try_map_retryable`, with a `RetryCaller`
  unfoldable pub try_map_retryable :
      (Shared I O E (CloneQueen (Callable (Closure S (I × Context) (WorkerResult I O E))))
        → List (Outcome I O E))
      → ℕ
      → ℕ
      → List I
      → Closure S (I × Context) (WorkerResult I O E)
      → Option (Outcomes I O E)
  unfolding map_with into_batch of Builder.num_threads Builder.max_retries Builder.default
  try_map_retryable arrived num_threads max_retries inputs f =
      elim (map_with spawn_ok channels tx arrived (of f)
        (Builder.max_retries max_retries
          (Builder.num_threads num_threads (Builder.default defaults)))
        inputs) [ none ↦ none | some it ↦ into_batch it ]
