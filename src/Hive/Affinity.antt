-- ===== src/Hive/Affinity.antt =====
-- src/hive/shared.rs, module `affinity`: the cores of a hive that grows.
use procpool.Common.{
  ℕ, ◌≡◌, sym, ap, ◌∙◌, some, ◌||◌, contains, ltb, if◌then◌else◌, ok, done, arith, inl, inr,
  Bool-cases,
}
use procpool.Atomic.{AtomicOption, try_update_with, on_atomic}
use procpool.Cores.{Cores, union}
use procpool.Cores.Laws.{union-contains, union_none}
use procpool.Shared.{Shared, add_core_affinity, grown}

-- The cores after new ones are added.
abbrev grown_or_same : Cores → Cores → Cores
grown_or_same new_cores cores =
    if ltb 0 (union new_cores cores).0 then (union new_cores cores).1 else cores

grown_or_same-contains :
    (new_cores cores : Cores) (i : ℕ)
    → contains (grown_or_same new_cores cores) i ≡ (contains cores i || contains new_cores i)
grown_or_same-contains new_cores cores i = elim (Bool-cases (ltb 0 (union new_cores cores).0)) [
  | inl more ↦ rw more (union-contains new_cores cores i)
  | inr same ↦ rw same (
      sym (ap (λ u. contains u i) (union_none new_cores cores (ground arith)))
      ∙ union-contains new_cores cores i)
]

module _ {ℓ} {I O E Q : Type ℓ} where
  -- On a hive with a set of cores, `add_core_affinity` returns that set, and leaves one that contains
  -- exactly the indices of that set and the new ones; nothing else changes.
  pub add_core_affinity-contains :
      (new_cores cores : Cores) (s : Shared I O E Q)
      → s.config.affinity ≡ AtomicOption.sync (some cores)
      → (u : Cores) × (add_core_affinity new_cores s
          ≡ done
              (ok cores)
              (record s { config = record s.config { affinity = AtomicOption.sync (some u) } }))
        × ((i : ℕ) → contains u i ≡ (contains cores i || contains new_cores i))
  unfolding add_core_affinity try_update_with on_atomic grown
  add_core_affinity-contains new_cores cores s set =
      (grown_or_same new_cores cores, ground (arith, set), grown_or_same-contains new_cores cores)
