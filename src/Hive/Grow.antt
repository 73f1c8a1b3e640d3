-- ===== src/Hive/Grow.antt =====
-- src/hive/hive.rs: `grow` and `use_all_cores`.
use procpool.Common.{
  ℕ, ◌+◌, ◌-◌, ◌%◌, ◌^◌, ◌≡◌, refl, List, [], ◌∷◌, length, some, Bool, false, panicked, ltb,
  if◌then◌else◌, filter, range, done, arith, dec_lt,
}
use procpool.Atomic.{AtomicOption, add_option, set_max, on_atomic}
use procpool.Hive.{spawn, try_brood, brood, grow, use_all_cores}
use procpool.Shared.{Shared, add_threads, ensure_threads}

module _ {ℓ} {I O E Q : Type ℓ} (spawn_ok : ℕ → Bool) (s : Shared I O E Q)
    (alive : s.poisoned ≡ false) where
  -- The state with this number of threads.
  abbrev with_threads : ℕ → Shared I O E Q
  with_threads n = record s {
    config = record s.config { num_threads = AtomicOption.sync (some n) };
  }

  brood-lem :
      (n : ℕ) (indices : List ℕ)
      → brood spawn_ok indices (with_threads n) ≡ length (filter spawn_ok indices)
  unfolding brood try_brood spawn filter
  brood-lem n [] = refl
  brood-lem n (i ∷ indices) = ground (arith, alive, brood-lem n indices)

  module _ (n : ℕ) (set : s.config.num_threads ≡ AtomicOption.sync (some n)) where
    add_threads-lem : (k : ℕ) → add_threads k s ≡ done n (with_threads ((n + k) % 2 ^ 64))
    unfolding add_threads add_option on_atomic
    add_threads-lem k = ground (arith, set)

    ensure_threads-lem :
        (k : ℕ) → ensure_threads k s ≡ done n (with_threads (if ltb n k then k else n))
    unfolding ensure_threads set_max on_atomic
    ensure_threads-lem k = ground (arith, set)

    -- On a hive that is not poisoned, with its number of threads set, `grow` adds the number to
    -- the number of threads, and returns how many of the thread indices from the old number on were
    -- started; the number of threads counts also those that were not. Where the sum does not fit in
    -- 64 bits, the number of threads has wrapped and the call panics before it starts a thread.
    -- Growing by 0 changes nothing.
    pub grow-counts :
        (k : ℕ)
        → grow spawn_ok k s ≡ (
            if ltb 0 k
            then (if ltb (n + k) (2 ^ 64)
                then done (length (filter spawn_ok (range n k))) (with_threads (n + k))
                else panicked (with_threads ((n + k) % 2 ^ 64)))
            else done 0 s)
    unfolding grow
    grow-counts k = elim (dec_lt (n + k) (2 ^ 64)) [
      | yes fits ↦
          let same : (n + k) % 2 ^ 64 ≡ n + k = omega arith in
          ground (arith, add_threads-lem k, same, brood-lem (n + k) (range n k))
      | no over ↦ ground (arith, add_threads-lem k)
    ]

    -- On a hive that is not poisoned, with its number of threads set, `use_all_cores` raises the
    -- number of threads to the number of cores, or leaves it if it is greater, and returns how
    -- many of the missing thread indices were started; the number of threads counts also those
    -- that were not.
    pub use_all_cores-max :
        (num_cpus : ℕ)
        → use_all_cores spawn_ok num_cpus s
          ≡ done
              (length (filter spawn_ok (range n (num_cpus - n))))
              (with_threads (if ltb n num_cpus then num_cpus else n))
    unfolding use_all_cores filter
    use_all_cores-max num_cpus = elim (dec_lt n num_cpus) [
      | yes more ↦
          ground (arith, ensure_threads-lem num_cpus, brood-lem num_cpus (range n (num_cpus - n)))
      | no enough ↦
          let none_new : num_cpus - n ≡ 0 = omega arith in
          rw none_new (ground (arith, ensure_threads-lem num_cpus))
    ]
