-- ===== src/Tests/Stores.antt =====
-- A store of four outcomes, and an iterator whose outcomes come in another order.

use procpool.Common.{
  ℕ, ◌+◌, ◌≡◌, refl, List, [], ◌∷◌, Option, none, some, true, err, done, arith, All, contains,
  filter, any,
}
use procpool.Common.Maps.{get}
use procpool.Outcome.{
  Outcome, success, failure, unprocessed, missing, index, is_unprocessed, is_success, is_failure,
}
use procpool.Outcome.Iter.{OutcomeIterator, next, read_items}
use procpool.Outcome.Iter
use procpool.Outcome.Iter.Exhausted.{read_items-exhausted}
use procpool.Outcome.Iter.Fuel.{next_total}
use procpool.Outcome.Iter.Ordered.{read_items-new}
use procpool.Outcome.Iter.Serve.{find, Nodup, Distinct}
use procpool.Outcome.Store.{Outcomes, has, num, iter_failures, count}
use procpool.Outcome.Store.Counts.{is_missing, count-num}
use procpool.Outcome.Store.Owned.{ok_or_unwrap_errors}
use procpool.Outcome.Store.Removal.{IsStore}
use procpool.Outcome.Store.Verdict.{ok_or_unwrap_errors-verdict}

abbrev store : Outcomes ℕ ℕ ℕ
store =
    (3, success 30 3) ∷ (1, unprocessed 10 1) ∷ (2, failure (some 20) 21 2) ∷ (4, missing 4) ∷ []

store-IsStore : IsStore store
unfolding get index
store-IsStore = record {
  unique = (refl, (refl, (refl, (refl, tt))));
  indexed = (refl, (refl, (refl, (refl, tt))));
}

ok_or_unwrap_errors-verdict_example :
    ok_or_unwrap_errors {S = ℕ} true store 0 ≡ done (err (21 ∷ [])) 0
unfolding has any iter_failures filter is_failure is_unprocessed
ok_or_unwrap_errors-verdict_example = ok_or_unwrap_errors-verdict true store 0

count-num_example : count store ≡ (1, 1, 2)
unfolding num filter is_unprocessed is_success is_failure is_missing
count-num_example = count-num store

abbrev pick : ℕ → Outcome ℕ ℕ ℕ
pick i = success (i + 10) i

abbrev shuffled : List (Outcome ℕ ℕ ℕ)
shuffled = pick 6 ∷ pick 4 ∷ pick 5 ∷ []

apart : Nodup (4 ∷ 5 ∷ 6 ∷ [])
unfolding contains
apart = (refl, (refl, (refl, tt)))

distinct : Distinct shuffled
unfolding find index
distinct = (refl, (refl, (refl, tt)))

found : All (λ i. find i shuffled ≡ some (pick i)) (4 ∷ 5 ∷ 6 ∷ [])
unfolding find index
found = (refl, (refl, (refl, tt)))

read_items-new_example :
    read_items 9 (Iter.new shuffled (4 ∷ 5 ∷ 6 ∷ [])) ≡ some (pick 4 ∷ pick 5 ∷ pick 6 ∷ [])
read_items-new_example =
    read_items-new pick 9 (4 ∷ 5 ∷ 6 ∷ []) shuffled (omega arith) apart distinct (omega arith) found

abbrev reading : OutcomeIterator ℕ ℕ ℕ
reading = record { inner = shuffled; indices = 4 ∷ 9 ∷ []; buf = [] }

next_total_example : (r : Option (Outcome ℕ ℕ ℕ) × OutcomeIterator ℕ ℕ ℕ) × (next reading ≡ some r)
next_total_example = next_total reading

no_nine : get 9 ((4, pick 4) ∷ []) ≡ none
unfolding get
no_nine = refl

read_items-exhausted_example :
    read_items 3 (record { inner = []; indices = 9 ∷ []; buf = (4, pick 4) ∷ [] })
    ≡ some (missing 9 ∷ missing 9 ∷ missing 9 ∷ [])
read_items-exhausted_example = read_items-exhausted 3 9 [] ((4, pick 4) ∷ []) no_nine
