-- ===== src/Husk/Laws.antt =====
-- src/hive/husk.rs: a hive made from a husk.
use procpool.Common.{
  ℕ, ◌^◌, ◌<◌, ◌≡◌, refl, List, [], ◌∷◌, length, Option, none, Bool, true, false, range, ok, done,
  arith,
}
use mathlib.Core.Option
use procpool.Atomic.{get_option}
use procpool.Builder.{Builder}
use procpool.Config.{into_sync_config}
use procpool.Counter
use procpool.Hive
use procpool.Hive.{SpawnError, spawn, try_brood, first_error}
use procpool.Hive.Submit.Batch.{batch_tasks, submitted, send_batch-all}
use procpool.Husk.{build, into_hive, as_builder, swarm_unprocessed, collect_unprocessed}
use procpool.Pool.Counts.{Counts}
use procpool.Shared
use procpool.Shared.{Channel, Shared}
use procpool.Shared.Teardown.{Husk}

module _ {ℓ} {I O E Q : Type ℓ} (spawn_ok : ℕ → Bool) (all_ok : (i : ℕ) → spawn_ok i ≡ true) where
  first_error-try_brood :
      (indices : List ℕ) (s : Shared I O E Q)
      → s.poisoned ≡ false
      → first_error (try_brood spawn_ok indices s) ≡ none
  unfolding try_brood spawn
  first_error-try_brood [] s alive = refl
  first_error-try_brood (i ∷ indices) s alive =
      ground (arith, alive, all_ok i, first_error-try_brood indices s alive)

  -- Where every thread starts, a builder gives a hive with its configuration.
  pub build-new :
      (b : Builder) (queen : Q) (channels : ℕ → Channel I O E)
      → build spawn_ok b queen channels ≡ ok (Shared.new (into_sync_config b) queen channels)
  unfolding build Hive.new Shared.new
  build-new b queen channels = ground (
    arith,
    first_error-try_brood (range 0 (Option.get_or (get_option b.num_threads) 0))
        (Shared.new (into_sync_config b) queen channels) refl,
  )

  module _ (channels : ℕ → Channel I O E) (h : Husk I O E Q) where
    -- The hive of a husk: its configuration and its queen, and nothing else.
    abbrev pub fresh : Shared I O E Q
    fresh = Shared.new (into_sync_config h.config) h.queen channels

    into_hive-fresh : into_hive spawn_ok channels h ≡ ok fresh
    unfolding into_hive as_builder
    into_hive-fresh = build-new h.config h.queen channels

    -- Where every thread starts, a husk with less than 2^48 unprocessed outcomes becomes a hive with its
    -- configuration and its queen, in which the inputs of these outcomes are queued, under the indices
    -- from 0 on, for the given channel or for none.
    pub swarm_unprocessed-all :
        (tx : Option ℕ)
        → length (collect_unprocessed h.outcomes) < 2 ^ 48
        → swarm_unprocessed spawn_ok channels tx h
          ≡ ok (
              done (range 0 (length (collect_unprocessed h.outcomes))) (
                submitted fresh 0 0
                  (length (collect_unprocessed h.outcomes))
                  (length (collect_unprocessed h.outcomes))
                  (batch_tasks tx 0 (collect_unprocessed h.outcomes))))
    unfolding swarm_unprocessed Shared.new Counter.default
    swarm_unprocessed-all tx few =
        let inputs : List I = collect_unprocessed h.outcomes in
        let c : Counts fresh 0 0 = record {
          word = refl;
          queued_fits = omega arith;
          active_fits = omega arith;
        } in
        ground (
          arith,
          into_hive-fresh,
          send_batch-all (length inputs) inputs tx 0 0 fresh c refl (omega arith) (omega arith)
              (omega arith),
        )
