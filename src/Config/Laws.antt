-- ===== src/Config/Laws.antt =====
-- src/hive/config.rs: a configuration across the life of a hive.
use procpool.Common.{◌≡◌, refl, Option, none, some, arith}
use mathlib.Core.Option
use procpool.Atomic.{
  AtomicOption, get_option, set_option, into_sync, into_sync_default, into_unsync,
}
use procpool.Config.{Config, set_num_threads, into_sync_config, into_unsync_config}

module _ {ℓ} {P : Type ℓ} where
  into_unsync-into_sync : (a : AtomicOption P) → into_unsync (into_sync a) ≡ into_unsync a
  unfolding into_unsync into_sync
  into_unsync-into_sync (AtomicOption.unsync opt) = refl
  into_unsync-into_sync (AtomicOption.sync opt) = refl

  into_unsync-into_sync_default :
      (d : P) (a : AtomicOption P)
      → into_unsync (into_sync_default d a)
        ≡ AtomicOption.unsync (some (Option.get_or (get_option a) d))
  unfolding into_unsync into_sync_default get_option
  into_unsync-into_sync_default d (AtomicOption.unsync none) = refl
  into_unsync-into_sync_default d (AtomicOption.unsync (some v)) = refl
  into_unsync-into_sync_default d (AtomicOption.sync none) = refl
  into_unsync-into_sync_default d (AtomicOption.sync (some v)) = refl

set_unsync {ℓ} :
    {P : Type ℓ} (v : Option P) (a : AtomicOption P)
    → (set_option v (into_unsync a)).1 ≡ AtomicOption.unsync v
unfolding set_option into_unsync
set_unsync v (AtomicOption.unsync opt) = refl
set_unsync v (AtomicOption.sync opt) = refl

-- A configuration that goes through a hive into a husk keeps every option, but for a number of
-- threads that is not set, which is 0 afterwards.
pub into_unsync_config-into_sync_config :
    (c : Config)
    → into_unsync_config (into_sync_config c)
      ≡ set_num_threads (some (Option.get_or (get_option c.num_threads) 0)) (into_unsync_config c)
unfolding into_unsync_config into_sync_config set_num_threads
into_unsync_config-into_sync_config c = ground (
  arith,
  into_unsync-into_sync_default 0 c.num_threads,
  set_unsync (some (Option.get_or (get_option c.num_threads) 0)) c.num_threads,
  into_unsync-into_sync c.thread_name,
  into_unsync-into_sync c.thread_stack_size,
  into_unsync-into_sync c.max_retries,
  into_unsync-into_sync c.retry_factor,
  into_unsync-into_sync c.affinity,
)

module _ {ℓ} {P : Type ℓ} where
  into_sync-into_unsync : (a : AtomicOption P) → into_sync (into_unsync (into_sync a)) ≡ into_sync a
  unfolding into_unsync into_sync
  into_sync-into_unsync (AtomicOption.unsync opt) = refl
  into_sync-into_unsync (AtomicOption.sync opt) = refl

  into_sync_default-into_unsync :
      (d : P) (a : AtomicOption P)
      → into_sync_default d (into_unsync (into_sync_default d a)) ≡ into_sync_default d a
  unfolding into_unsync into_sync_default
  into_sync_default-into_unsync d (AtomicOption.unsync none) = refl
  into_sync_default-into_unsync d (AtomicOption.unsync (some v)) = refl
  into_sync_default-into_unsync d (AtomicOption.sync none) = refl
  into_sync_default-into_unsync d (AtomicOption.sync (some v)) = refl

-- A hive that is made from the husk of a hive has the configuration of that hive.
pub into_sync_config-into_unsync_config :
    (c : Config) → into_sync_config (into_unsync_config (into_sync_config c)) ≡ into_sync_config c
unfolding into_unsync_config into_sync_config
into_sync_config-into_unsync_config c = ground (
  arith,
  into_sync_default-into_unsync 0 c.num_threads,
  into_sync-into_unsync c.thread_name,
  into_sync-into_unsync c.thread_stack_size,
  into_sync-into_unsync c.max_retries,
  into_sync-into_unsync c.retry_factor,
  into_sync-into_unsync c.affinity,
)
