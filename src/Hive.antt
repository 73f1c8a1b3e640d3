-- ===== src/Hive.antt =====
-- src/hive/hive.rs: the operations of a `Hive`, with the features `retry` and `affinity`. A blocking
-- wait is not part of the operations: the caller is resumed when its condition holds. Which threads
-- the operating system starts is an argument.
pub mod Submit
pub mod Thread
pub mod Grow
pub mod Affinity
pub mod Blocking
pub mod Store
use procpool.Common.{
  ℕ, zero, suc, ◌+◌, ◌-◌, List, [], ◌∷◌, ◌++◌, map, length, filter, Option, none, some, Bool, true,
  false, not, ltb, ◌==◌, if◌then◌else◌, range, Result, ok, err, Exec, done, ◌>>=◌, ◌>>◌, pure, read,
}
use mathlib.Core.Option
use procpool.Atomic.{get_option}
use procpool.Config.{Config, into_sync_config}
use procpool.Cores.{Cores, Core, try_pin_current}
use procpool.Cores
use procpool.Shared
use procpool.Shared.{
  Task, Channel, Shared, Call, add_threads, ensure_threads, add_core_affinity, get_core_affinity,
  has_work, referrer_is_cloning, referrer_is_dropping, set_suspended, range_of,
}
use procpool.Shared.Teardown
use procpool.Shared.Teardown.{Husk, poison, take_outcomes}
use procpool.Outcome.Store.{Outcomes}

pub data SpawnError : Type 0 where
  spawn_failed poisoned : SpawnError

abbrev pub spawned : List (Result ℕ SpawnError) → List ℕ
spawned [] = []
spawned (ok i ∷ rs) = i ∷ spawned rs
spawned (err _ ∷ rs) = spawned rs

-- The error of the first thread that was not started.
abbrev pub first_error : List (Result ℕ SpawnError) → Option SpawnError
first_error [] = none
first_error (ok _ ∷ rs) = first_error rs
first_error (err e ∷ _) = some e

module _ {ℓ} {I O E Q : Type ℓ} (spawn_ok : ℕ → Bool) where
  -- The index of the thread that was started.
  unfoldable pub spawn : ℕ → Shared I O E Q → Result ℕ SpawnError
  spawn index s =
      if s.poisoned then err poisoned else if spawn_ok index then ok index else err spawn_failed

  unfoldable pub try_brood : List ℕ → Shared I O E Q → List (Result ℕ SpawnError)
  unfolding spawn
  try_brood indices s = map (λ i. spawn i s) indices

  unfoldable pub brood : List ℕ → Shared I O E Q → ℕ
  unfolding try_brood
  brood indices s = length (spawned (try_brood indices s))

  -- The hive that was made goes with the error; `Hive::new` drops it then.
  unfoldable pub new : Config → Q → (ℕ → Channel I O E) → Option SpawnError × Shared I O E Q
  unfolding Shared.new try_brood get_option into_sync_config
  new config queen channels =
      let num_threads = Option.get_or (get_option config.num_threads) 0 in
      let s = Shared.new (into_sync_config config) queen channels in
      (first_error (try_brood (range 0 num_threads) s), s)

  unfoldable pub grow : ℕ → Call I O E Q ℕ
  unfolding add_threads brood
  grow num_threads =
      if ltb 0 num_threads
      then (do
        start ← add_threads num_threads
        indices ← range_of start num_threads
        read (brood indices))
      else pure 0

  unfoldable pub use_all_cores : ℕ → Call I O E Q ℕ
  unfolding ensure_threads brood
  use_all_cores num_cpus = do
    cur_threads ← ensure_threads num_cpus
    if ltb cur_threads num_cpus
        then read (brood (range cur_threads (num_cpus - cur_threads)))
        else pure 0

  unfoldable pub grow_with_affinity : ℕ → Cores → Call I O E Q (Unit {0})
  unfolding add_core_affinity grow
  grow_with_affinity num_threads affinity = do
    _ ← add_core_affinity affinity
    _ ← grow num_threads
    pure tt

  unfoldable pub use_all_cores_with_affinity : ℕ → Call I O E Q ℕ
  unfolding add_core_affinity use_all_cores Cores.all
  use_all_cores_with_affinity num_cpus = do
    _ ← add_core_affinity (Cores.all num_cpus)
    use_all_cores num_cpus

module _ {ℓ} {I O E Q : Type ℓ} where
  -- `init_thread`: the core to which the thread with this index is pinned, if it is.
  unfoldable pub init_thread : List Core → (ℕ → Bool) → ℕ → Shared I O E Q → Option Core
  unfolding get_core_affinity try_pin_current
  init_thread known set_for_current thread_index s = elim (get_core_affinity known thread_index s) [
    | none ↦ none
    | some core ↦ if try_pin_current set_for_current core then some core else none
  ]

  unfoldable pub num_threads : Shared I O E Q → ℕ
  unfolding get_option
  num_threads s = Option.get_or (get_option s.config.num_threads) 0

  unfoldable pub suspend : Call I O E Q (Unit {0})
  unfolding set_suspended
  suspend = do _ ← set_suspended true; pure tt

  unfoldable pub resume : Call I O E Q (Unit {0})
  unfolding set_suspended
  resume = do _ ← set_suspended false; pure tt

  unfoldable pub take_stored : Call I O E Q (Outcomes I O E)
  unfolding take_outcomes
  take_stored = take_outcomes

  -- The condition under which a thread stays in `join`.
  unfoldable pub join_waits : Shared I O E Q → Bool
  unfolding has_work
  join_waits s = has_work s

  unfoldable pub clone : Call I O E Q (Unit {0})
  unfolding referrer_is_cloning
  clone = do _ ← referrer_is_cloning; pure tt

  -- `Drop` of a hive that was not turned into a husk.
  unfoldable pub drop : Call I O E Q (Unit {0})
  unfolding referrer_is_dropping poison
  drop = do
    _ ← referrer_is_dropping
    referrers ← read (λ s. s.num_referrers)
    if referrers == 0 then poison else pure tt

  -- `try_into_husk`, from where its waits for the tasks and the worker threads are over.
  unfoldable pub try_into_husk : Call I O E Q (Option (Husk I O E Q))
  unfolding Teardown.try_into_husk
  try_into_husk s =
      if ltb 1 s.num_referrers
      then done none s
      else (do husk ← Teardown.try_into_husk; pure (some husk)) s
