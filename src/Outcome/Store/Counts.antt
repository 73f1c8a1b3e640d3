-- ===== src/Outcome/Store/Counts.antt =====
-- src/hive/outcome/store.rs: `count` and the counts of each kind.
use procpool.Common.{ℕ, ◌+◌, ◌≡◌, ◌∙◌, List, [], ◌∷◌, Bool, true, false, arith, length, filter}
use procpool.Common.Maps.{values}
use procpool.Outcome.{
  Outcome, success, unprocessed, missing, is_success, is_unprocessed, is_failure,
}
use procpool.Outcome.Store.{
  Outcomes, num, num_unprocessed, num_successes, num_failures, count_from, count,
}

module _ {ℓ} {I O E : Type ℓ} where
  -- The outcomes that stand for a task that was not found.
  unfoldable pub is_missing : Outcome I O E → Bool
  is_missing (missing _) = true
  is_missing _ = false

  abbrev of_kind : (Outcome I O E → Bool) → List (Outcome I O E) → ℕ
  of_kind test os = length (filter test os)

  count_from_lem :
      (u s f : ℕ) (os : List (Outcome I O E))
      → count_from (u, s, f) os ≡ (
        u + of_kind is_unprocessed os,
        s + of_kind is_success os,
        f + (of_kind is_failure os + of_kind is_missing os),
      )
  unfolding count_from filter is_unprocessed is_success is_failure is_missing
  count_from_lem u s f [] = ground arith
  count_from_lem u s f (success _ _ ∷ os) = ground (arith, count_from_lem u (s + 1) f os)
  count_from_lem u s f (unprocessed _ _ ∷ os) = ground (arith, count_from_lem (u + 1) s f os)
  count_from_lem u s f (_ ∷ os) = ground (arith, count_from_lem u s (f + 1) os)

  -- `count` counts the unprocessed outcomes, the successes, and as failures the failures together
  -- with the outcomes that are missing.
  pub count-num :
      (m : Outcomes I O E)
      → count m ≡ (num_unprocessed m, num_successes m, num_failures m + num is_missing m)
  unfolding count num
  count-num m = count_from_lem 0 0 0 (values m) ∙ ground arith
