-- ===== src/Outcome/Store.antt =====
-- src/hive/outcome/store.rs: the operations of `OutcomeStore`, on the map of a `Hive`, a `Husk` or an
-- `OutcomeBatch`. The state of a call is that map.
pub mod Owned
pub mod Counts
pub mod Removal
pub mod Verdict
pub mod Kept
pub mod Order
pub mod View
pub mod Deref
use procpool.Common.{
  ℕ, ◌+◌, ◌<◌, List, [], ◌∷◌, map, Option, none, some, Bool, true, false, not, ◌&&◌, ◌||◌, ltb,
  if◌then◌else◌, length, filter, any, Result, ok, err, Exec, done, ◌>>=◌, ◌>>◌, pure, panic, read,
  assert, collect, unwrap_option,
}
use procpool.Common.Maps.{get, remove, insert, values}
use procpool.Common.Sorting.{sort}
use procpool.Outcome.{
  Outcome, success, failure, unprocessed, missing, panic_outcome, max_retries_attempted, is_success,
  is_unprocessed, is_failure, index, unwrap, into_input, into_error,
}

abbrev pub Outcomes {ℓ} : Type ℓ → Type ℓ → Type ℓ → Type ℓ
Outcomes I O E = List (ℕ × Outcome I O E)

module _ {ℓ} {I O E : Type ℓ} where
  unfoldable pub len : Outcomes I O E → ℕ
  len m = length m

  unfoldable pub is_empty : Outcomes I O E → Bool
  is_empty [] = true
  is_empty (_ ∷ _) = false

  -- One round of the fold of `count`.
  unfoldable pub tally : ℕ × ℕ × ℕ → Outcome I O E → ℕ × ℕ × ℕ
  tally (u, s, f) (success _ _) = (u, s + 1, f)
  tally (u, s, f) (unprocessed _ _) = (u + 1, s, f)
  tally (u, s, f) _ = (u, s, f + 1)

  unfoldable pub count_from : ℕ × ℕ × ℕ → List (Outcome I O E) → ℕ × ℕ × ℕ
  unfolding tally
  count_from acc [] = acc
  count_from acc (o ∷ os) = count_from (tally acc o) os

  unfoldable pub count : Outcomes I O E → ℕ × ℕ × ℕ
  unfolding count_from
  count m = count_from (0, 0, 0) (values m)

  unfoldable pub assert_empty : Bool → Outcomes I O E → Exec (Outcomes I O E) (Unit {0})
  unfolding count
  assert_empty allow_successes m =
      let (u, s, f) = count m in
      if not allow_successes && ltb 0 s
      then panic m
      else if ltb 0 u || ltb 0 f
      then panic m
      else done tt m

  -- `has_*`, `num_*` and `*_indices`, each by the test of its kind of outcome
  unfoldable pub has : (Outcome I O E → Bool) → Outcomes I O E → Bool
  unfolding any
  has test m = any test (values m)

  unfoldable pub num : (Outcome I O E → Bool) → Outcomes I O E → ℕ
  unfolding filter
  num test m = length (filter test (values m))

  unfoldable pub indices : (Outcome I O E → Bool) → Outcomes I O E → List ℕ
  unfolding filter index
  indices test m = map index (filter test (values m))

  abbrev pub has_unprocessed : Outcomes I O E → Bool
  has_unprocessed = has is_unprocessed

  abbrev pub num_unprocessed : Outcomes I O E → ℕ
  num_unprocessed = num is_unprocessed

  abbrev pub unprocessed_indices : Outcomes I O E → List ℕ
  unprocessed_indices = indices is_unprocessed

  abbrev pub has_successes : Outcomes I O E → Bool
  has_successes = has is_success

  abbrev pub num_successes : Outcomes I O E → ℕ
  num_successes = num is_success

  abbrev pub success_indices : Outcomes I O E → List ℕ
  success_indices = indices is_success

  abbrev pub has_failures : Outcomes I O E → Bool
  has_failures = has is_failure

  abbrev pub num_failures : Outcomes I O E → ℕ
  num_failures = num is_failure

  abbrev pub failure_indices : Outcomes I O E → List ℕ
  failure_indices = indices is_failure

  -- `HashMap::remove`: the entry, and the map without it
  abbrev pub remove_at : ℕ → Outcomes I O E → Exec (Outcomes I O E) (Option (Outcome I O E))
  remove_at i m = done (get i m) (remove i m)

  unfoldable pub remove_all : Outcomes I O E → Exec (Outcomes I O E) (List (Outcome I O E))
  unfolding sort index
  remove_all m = done (sort index (values m)) []

  -- The closures of `remove_unprocessed`, `remove_success` and `remove_failure`.
  unfoldable pub unprocessed_value {κ} : {S : Type κ} → Outcome I O E → S → Exec S I
  unprocessed_value (unprocessed value _) = pure value
  unprocessed_value _ = panic

  unfoldable pub failure_value {κ} : {S : Type κ} → Outcome I O E → S → Exec S (Outcome I O E)
  unfolding is_failure
  failure_value o = do assert (is_failure o); pure o

  -- `map.remove(&index).map(f)`
  unfoldable pub remove_with {κ} :
      {A : Type κ}
      → (Outcome I O E → Outcomes I O E → Exec (Outcomes I O E) A)
      → ℕ
      → Outcomes I O E
      → Exec (Outcomes I O E) (Option A)
  unfolding get remove
  remove_with f i = do
    found ← remove_at i
    elim found [ none ↦ pure none | some o ↦ (do a ← f o; pure (some a)) ]

  abbrev pub remove_unprocessed : ℕ → Outcomes I O E → Exec (Outcomes I O E) (Option I)
  remove_unprocessed = remove_with unprocessed_value

  abbrev pub remove_success : ℕ → Outcomes I O E → Exec (Outcomes I O E) (Option O)
  remove_success = remove_with unwrap

  abbrev pub remove_failure : ℕ → Outcomes I O E → Exec (Outcomes I O E) (Option (Outcome I O E))
  remove_failure = remove_with failure_value

  -- The loop over the indices: each entry is removed and unwrapped.
  unfoldable pub remove_each {κ} :
      {A : Type κ}
      → (Outcome I O E → Outcomes I O E → Exec (Outcomes I O E) A)
      → List ℕ
      → Outcomes I O E
      → Exec (Outcomes I O E) (List (ℕ × A))
  unfolding collect remove_with
  remove_each f =
      collect λ i. do removed ← remove_with f i; value ← unwrap_option removed; pure (i, value)

  unfoldable pub remove_all_unprocessed : Outcomes I O E → Exec (Outcomes I O E) (List (ℕ × I))
  unfolding remove_each indices is_unprocessed unprocessed_value
  remove_all_unprocessed m = remove_each unprocessed_value (unprocessed_indices m) m

  unfoldable pub remove_all_successes : Outcomes I O E → Exec (Outcomes I O E) (List (ℕ × O))
  unfolding remove_each indices is_success unwrap
  remove_all_successes m = remove_each unwrap (success_indices m) m

  unfoldable pub remove_all_failures : Outcomes I O E → Exec (Outcomes I O E) (List (Outcome I O E))
  unfolding remove_each indices is_failure failure_value
  remove_all_failures m =
      (do removed ← remove_each failure_value (failure_indices m); pure (map (λ e. e.1) removed)) m

  -- `values().filter_map(f)` with the outcome's index beside each value
  unfoldable pub entries_with {κ} :
      {A : Type κ} → (Outcome I O E → Option A) → Outcomes I O E → List (ℕ × A)
  unfolding index
  entries_with v [] = []
  entries_with v ((_, o) ∷ m) = elim (v o) [
    | none ↦ entries_with v m
    | some a ↦ (index o, a) ∷ entries_with v m
  ]

  unfoldable pub unprocessed_input : Outcome I O E → Option I
  unprocessed_input (unprocessed input _) = some input
  unprocessed_input _ = none

  unfoldable pub success_output : Outcome I O E → Option O
  success_output (success value _) = some value
  success_output _ = none

  abbrev pub iter_unprocessed : Outcomes I O E → List (ℕ × I)
  iter_unprocessed = entries_with unprocessed_input

  abbrev pub iter_successes : Outcomes I O E → List (ℕ × O)
  iter_successes = entries_with success_output

  unfoldable pub iter_failures : Outcomes I O E → List (Outcome I O E)
  unfolding filter is_failure
  iter_failures m = filter is_failure (values m)
