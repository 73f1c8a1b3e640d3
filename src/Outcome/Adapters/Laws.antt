-- ===== src/Outcome/Adapters/Laws.antt =====
-- src/hive/outcome/iter.rs: what the ordered adapters of `OutcomeIteratorExt` yield.
use procpool.Common.{
  ℕ, ◌+◌, ◌≤◌, ◌≡◌, refl, List, [], ◌∷◌, map, length, some, Exec, done, collect, arith, All,
  All-imp, ap, ok,
}
use procpool.Outcome.{Outcome, success, unwrap, into_result}
use procpool.Outcome.Adapters.{ordered_items, take_ordered_results, take_ordered_outputs}
use procpool.Outcome.Iter.Ordered.{read_items-new}
use procpool.Outcome.Iter.Serve.{Nodup, Distinct, find}

collect-map {ℓ κ μ ν} :
    {S : Type ℓ} {K : Type κ} {A : Type μ} {B : Type ν} (pick : K → A) (value : K → B)
    (f : A → S → Exec S B) (s : S)
    → (ks : List K) → All (λ k. f (pick k) s ≡ done (value k) s) ks
    → collect f (map pick ks) s ≡ done (map value ks) s
unfolding collect
collect-map pick value f s [] h = refl
collect-map pick value f s (k ∷ ks) (here, rest) =
    ground (arith, here, collect-map pick value f s ks rest)

module _ {ℓ} {I O E : Type ℓ} (pick : ℕ → Outcome I O E) (is : List ℕ) (os : List (Outcome I O E))
    (apart : Nodup is) (distinct : Distinct os) (few : length os ≤ length is)
    (found : All (λ i. find i os ≡ some (pick i)) is) where
  ordered_items-all : ordered_items is os ≡ some (map pick is)
  unfolding ordered_items
  ordered_items-all =
      read_items-new pick (length is + 1) is os (omega arith) apart distinct few found

  -- The inner iterator may yield its outcomes in any order. If it yields one for each of the indices,
  -- which are distinct, and no more, and every outcome is a success, then `take_ordered_outputs` yields
  -- their values and `take_ordered_results` the same values as results, in the order of the indices.
  pub take_ordered-success :
      {S : Type ℓ} (value : ℕ → O) (s : S)
      → All (λ i. pick i ≡ success (value i) i) is
      → (take_ordered_outputs is os s ≡ done (map value is) s)
        × (take_ordered_results is os s ≡ done (map (λ i. ok (value i)) is) s)
  unfolding take_ordered_results take_ordered_outputs into_result unwrap
  take_ordered-success value s all = (
    rw (ordered_items-all, take_ordered_outputs)
        (collect-map pick value unwrap s is (All-imp (λ i e. ap (λ o. unwrap o s) e) is all)),
    rw (ordered_items-all, take_ordered_results)
        (collect-map pick (λ i. ok (value i)) into_result s is
          (All-imp (λ i e. ap (λ o. into_result o s) e) is all)),
  )
