-- ===== src/Outcome/Batch/Laws.antt =====
-- src/hive/outcome/batch.rs: the entries of a batch of outcomes with consecutive indices.
use procpool.Common.{
  ℕ, zero, suc, ◌+◌, ◌<◌, ◌≡◌, refl, ◌∙◌, subst, List, [], ◌∷◌, Option, none, some, arith,
  get_elem?,
}
use mathlib.Core.Option
use procpool.Bee.{WorkerResult}
use procpool.Common.Maps.{get, insert, get-insert}
use procpool.Hive.Thread.Fate.{outcome_index}
use procpool.Outcome.{Outcome, from_worker_result, index}
use procpool.Outcome.Batch.{batch_from, collect_into}
use procpool.Outcome.Store.{Outcomes}
use procpool.Pool.Mapped.Results.{outcomes_from}

module _ {ℓ} {I O E : Type ℓ} (work : I → WorkerResult I O E) where
  collect_into-before :
      (k first : ℕ) (vs : List I) (m : Outcomes I O E)
      → k < first
      → get k (collect_into m (outcomes_from work first vs)) ≡ get k m
  unfolding collect_into
  collect_into-before k first [] m h = refl
  collect_into-before k first (v ∷ vs) m h =
      let o : Outcome I O E = from_worker_result (work v) first in
      ground (
        arith,
        collect_into-before k (suc first) vs (insert (index o) o m) (omega arith),
        get-insert (index o) k o m,
        outcome_index (work v) first,
      )

  -- The entry of the input at a place, or else another.
  abbrev entry : ℕ → Option (Outcome I O E) → Option I → Option (Outcome I O E)
  entry i other none = other
  entry i other (some v) = some (from_worker_result (work v) i)

  collect_into-outcomes :
      (j first : ℕ) (vs : List I) (m : Outcomes I O E)
      → get (first + j) (collect_into m (outcomes_from work first vs))
        ≡ entry (first + j) (get (first + j) m) (get_elem? vs j)
  unfolding collect_into
  collect_into-outcomes j first [] m = refl
  collect_into-outcomes zero first (v ∷ vs) m =
      let o : Outcome I O E = from_worker_result (work v) first in
      ground (
        arith,
        collect_into-before first (suc first) vs (insert (index o) o m) (omega arith),
        get-insert (index o) first o m,
        outcome_index (work v) first,
      )
  collect_into-outcomes (suc j) first (v ∷ vs) m =
      let o : Outcome I O E = from_worker_result (work v) first in
      let at : suc first + j ≡ first + suc j = omega arith in
      ground (
        arith,
        at,
        collect_into-outcomes j (suc first) vs (insert (index o) o m),
        get-insert (index o) (first + suc j) o m,
        outcome_index (work v) first,
      )

  entry-map :
      (i : ℕ) (v : Option I) → entry i none v ≡ Option.map (λ v. from_worker_result (work v) i) v
  entry-map i none = refl
  entry-map i (some v) = refl

  -- A batch of outcomes whose indices count from 0 has each under its index, and nothing else.
  pub get-batch_from :
      (inputs : List I) (k : ℕ)
      → get k (batch_from (outcomes_from work 0 inputs))
        ≡ Option.map (λ v. from_worker_result (work v) k) (get_elem? inputs k)
  unfolding batch_from get
  get-batch_from inputs k =
      let at : 0 + k ≡ k = omega arith in
      subst
        (λ i.
          get i (batch_from (outcomes_from work 0 inputs))
          ≡ Option.map (λ v. from_worker_result (work v) i) (get_elem? inputs k))
        at (collect_into-outcomes k 0 inputs [] ∙ entry-map (0 + k) (get_elem? inputs k))
