-- ===== src/Util/Built.antt =====
-- src/util.rs: the hive that the maps build, and what they make of the iterator.
use procpool.Common.{
  ℕ, suc, ◌+◌, ◌^◌, ◌<◌, ◌≡◌, refl, ap, List, [], ◌∷◌, map, length, range, some, Bool, true, ok,
  done, collect, arith,
}
use procpool.Bee.{WorkerResult}
use procpool.Bee.Queen.{CloneQueen, clone_queen}
use procpool.Builder.{Builder}
use procpool.Config.{Config, into_sync_config}
use procpool.Counter
use procpool.Hive.Blocking
use procpool.Hive.Submit.{map_send}
use procpool.Hive.Submit.Each.{send_each}
use procpool.Husk.Laws.{build-new}
use procpool.Outcome.{Outcome, from_worker_result, unwrap}
use procpool.Outcome.Batch.{batch_from}
use procpool.Outcome.Iter.{OutcomeIterator, read_items}
use procpool.Outcome.Iter
use procpool.Pool.Mapped.Results.{outcomes_from}
use procpool.Shared
use procpool.Shared.{Channel, Shared}
use procpool.Util.{build_with, map_with, into_batch}

module _ {ℓ} {I O E W : Type ℓ} (spawn_ok : ℕ → Bool) (all_ok : (i : ℕ) → spawn_ok i ≡ true)
    (channels : ℕ → Channel I O E) where
  map_send-new :
      (config : Config) (queen : CloneQueen W) (inputs : List I) (tx : ℕ)
      → length inputs < 2 ^ 48
      → (t : Shared I O E (CloneQueen W)) × (map_send inputs tx (Shared.new config queen channels)
          ≡ done (range 0 (length inputs)) t)
  unfolding map_send Shared.new Counter.default
  map_send-new config queen inputs tx few = (
    _,
    send_each inputs (some tx) 0 0 (Shared.new config queen channels) (record {
      counts = record { word = refl; queued_fits = omega arith; active_fits = omega arith };
      alive = refl;
      fits = omega arith;
      wide = omega arith;
    }),
  )

  pub map_with-new :
      (b : Builder) (worker : W) (inputs : List I) (tx : ℕ) (os : List (Outcome I O E))
      → length inputs < 2 ^ 48
      → map_with spawn_ok channels tx (λ t. os) worker b inputs
        ≡ some (Iter.new os (range 0 (length inputs)))
  unfolding map_with build_with Blocking.map
  map_with-new b worker inputs tx os few =
      let (t, sent) = map_send-new (into_sync_config b) (clone_queen worker) inputs tx few in
      ground (arith, build-new spawn_ok all_ok b (clone_queen worker) channels, sent)

module _ {ℓ} {I O E : Type ℓ} where
  pub unwrap-outcomes :
      (g : I → O) (first : ℕ) (vs : List I) (it : OutcomeIterator I O E)
      → collect unwrap (outcomes_from {E = E} (λ v. ok (g v)) first vs) it ≡ done (map g vs) it
  unfolding collect unwrap from_worker_result
  unwrap-outcomes g first [] it = refl
  unwrap-outcomes g first (v ∷ vs) it = ground (arith, unwrap-outcomes g (suc first) vs it)

  length-outcomes :
      (work : I → WorkerResult I O E) (first : ℕ) (vs : List I)
      → length (outcomes_from work first vs) ≡ length vs
  length-outcomes work first [] = refl
  length-outcomes work first (v ∷ vs) = ap suc (length-outcomes work (suc first) vs)

  pub into_batch-outcomes :
      (work : I → WorkerResult I O E) (inputs : List I) (it : OutcomeIterator I O E)
      → length it.indices ≡ length inputs
      → read_items (length it.indices + 1) it ≡ some (outcomes_from work 0 inputs)
      → into_batch it ≡ some (batch_from (outcomes_from work 0 inputs))
  unfolding into_batch
  into_batch-outcomes work inputs it same read =
      ground (arith, read, same, length-outcomes work 0 inputs)
