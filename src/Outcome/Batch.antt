-- ===== src/Outcome/Batch.antt =====
-- src/hive/outcome/batch.rs: an `OutcomeBatch`, the map of the outcomes that an iterator yields.
pub mod Laws
use procpool.Common.{
  ℕ, suc, ◌+◌, ◌≡◌, refl, ◌∙◌, List, [], ◌∷◌, Option, none, some, arith, ◌==◌, if◌then◌else◌,
  get_elem?,
}
use procpool.Common.Maps.{get, insert, get-insert}
use procpool.Outcome.{Outcome, index}
use procpool.Outcome.Store.{Outcomes}

module _ {ℓ} {I O E : Type ℓ} where
  -- The entries are put in one by one: of two with one index the later stays.
  unfoldable pub collect_into : Outcomes I O E → List (Outcome I O E) → Outcomes I O E
  unfolding insert index
  collect_into m [] = m
  collect_into m (o ∷ os) = collect_into (insert (index o) o m) os

  -- `OutcomeBatch::from`
  unfoldable pub batch_from : List (Outcome I O E) → Outcomes I O E
  unfolding collect_into
  batch_from os = collect_into [] os
