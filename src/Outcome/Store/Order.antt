-- ===== src/Outcome/Store/Order.antt =====
-- src/hive/outcome/store.rs: what does not depend on the order in which the `HashMap` iterates.
use procpool.Common.{
  ℕ, ◌+◌, ◌≡◌, ◌≢◌, refl, sym, ap, ◌∙◌, List, [], ◌∷◌, Bool, true, if◌then◌else◌, filter, done,
  collect, unwrap_option, arith,
}
use procpool.Common.Maps.{values}
use procpool.Common.SameEntries.{SameEntries, fold, fold-SameEntries}
use procpool.Common.Sorting.{insert_sorted, sort}
use procpool.Outcome.{Outcome, index, is_unprocessed, is_success, is_failure, into_input}
use procpool.Outcome.Store.{Outcomes, num, count, remove_all}
use procpool.Outcome.Store.Counts.{count-num, is_missing}
use procpool.Outcome.Store.Owned.{into_unprocessed}
use procpool.Outcome.Store.Removal.{Indexed, IsStore}

module _ {ℓ} {V : Type ℓ} where
  abbrev key : ℕ × V → ℕ
  key e = e.0

  -- Two entries with different keys, in either order.
  insert_sorted_comm :
      (a b : ℕ × V) (es : List (ℕ × V))
      → key a ≢ key b
      → insert_sorted key a (insert_sorted key b es) ≡ insert_sorted key b (insert_sorted key a es)
  unfolding insert_sorted
  insert_sorted_comm a b [] apart = ground arith
  insert_sorted_comm a b (e ∷ es) apart = ground (arith, insert_sorted_comm a b es apart)

module _ {ℓ} {I O E : Type ℓ} where
  -- The entries whose outcome passes the test, sorted by their keys: a fold over the map.
  abbrev sort_step :
      (Outcome I O E → Bool)
      → ℕ
      → Outcome I O E
      → List (ℕ × Outcome I O E)
      → List (ℕ × Outcome I O E)
  sort_step test k o es = if test o then insert_sorted key (k, o) es else es

  insert_sorted-values :
      (k : ℕ) (o : Outcome I O E) (m : Outcomes I O E)
      → index o ≡ k
      → Indexed m
      → (values (insert_sorted key (k, o) m) ≡ insert_sorted index o (values m))
        × Indexed (insert_sorted key (k, o) m)
  unfolding insert_sorted
  insert_sorted-values k o [] e i = (refl, (e, tt))
  insert_sorted-values k o ((j, p) ∷ m) e i = ground (arith, i.0, insert_sorted-values k o m e i.1)

  sort-fold :
      (test : Outcome I O E → Bool) (m : Outcomes I O E)
      → Indexed m
      → (values (fold (sort_step test) [] m) ≡ sort index (filter test (values m)))
        × Indexed (fold (sort_step test) [] m)
  unfolding fold sort filter
  sort-fold test [] i = (refl, tt)
  sort-fold test ((k, o) ∷ m) i =
      let (e, i') = sort-fold test m i.1 in
      let (e', i'') = insert_sorted-values k o (fold (sort_step test) [] m) i.0 i' in ground arith

  sort_step-commutes :
      (test : Outcome I O E → Bool) (k j : ℕ) (o p : Outcome I O E) (es : List (ℕ × Outcome I O E))
      → k ≢ j
      → sort_step test k o (sort_step test j p es) ≡ sort_step test j p (sort_step test k o es)
  sort_step-commutes test k j o p es apart =
      ground (arith, insert_sorted_comm (k, o) (j, p) es apart)

  abbrev num_step : (Outcome I O E → Bool) → ℕ → Outcome I O E → ℕ → ℕ
  num_step test k o n = if test o then n + 1 else n

  num-fold :
      (test : Outcome I O E → Bool) (m : Outcomes I O E) → fold (num_step test) 0 m ≡ num test m
  unfolding fold num filter
  num-fold test [] = refl
  num-fold test ((k, o) ∷ m) = ground (arith, num-fold test m)

  filter_all : (os : List (Outcome I O E)) → filter (λ o. true) os ≡ os
  unfolding filter
  filter_all [] = refl
  filter_all (o ∷ os) = ap (λ rest. o ∷ rest) (filter_all os)

  module _ (m m' : Outcomes I O E) (v : IsStore m) (v' : IsStore m') (same : SameEntries m m') where
    pub num-SameEntries : (test : Outcome I O E → Bool) → num test m ≡ num test m'
    num-SameEntries test =
        sym (num-fold test m)
        ∙ fold-SameEntries (num_step test) 0 (λ k j o p n apart. ground arith) m m' v.unique
            v'.unique same
        ∙ num-fold test m'

    sort-SameEntries :
        (test : Outcome I O E → Bool)
        → sort index (filter test (values m)) ≡ sort index (filter test (values m'))
    sort-SameEntries test =
        sym (sort-fold test m v.indexed).0
        ∙ ap values (
            fold-SameEntries (sort_step test) [] (sort_step-commutes test) m m' v.unique v'.unique
              same)
        ∙ (sort-fold test m' v'.indexed).0

    -- Two maps with unique keys, each outcome under its own index, that hold the same entries and may
    -- iterate over them in different orders: `count` counts the same, `remove_all` returns the same
    -- list, and so does `into_unprocessed` where it is to sort.
    pub operations-SameEntries {κ} :
        {S : Type κ} (s : S)
        → (count m ≡ count m')
          × (remove_all m ≡ remove_all m')
          × (into_unprocessed true m s ≡ into_unprocessed true m' s)
    unfolding remove_all into_unprocessed
    operations-SameEntries s =
        let sorted = sort-SameEntries is_unprocessed in
        let all =
          ap (sort index) (sym (filter_all (values m)))
          ∙ sort-SameEntries (λ o. true)
          ∙ ap (sort index) (filter_all (values m')) in
        (
          ground (
            arith,
            count-num m,
            count-num m',
            num-SameEntries is_unprocessed,
            num-SameEntries is_success,
            num-SameEntries is_failure,
            num-SameEntries is_missing,
          ),
          ap (λ os. done os []) all,
          ap (λ os. collect (λ o. unwrap_option (into_input o)) os s) sorted,
        )
