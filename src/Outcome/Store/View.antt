-- ===== src/Outcome/Store/View.antt =====
-- src/hive/outcome/store.rs: a store as its client sees it, without the order of iteration.
use mathlib.Core.Quot
use mathlib.Core.Quot.{Quot, Quot-set}
use procpool.Common.{ℕ, Bool, ◌≡◌, ◌≢◌, arith, ==_iff}
use procpool.Common.Maps.{insert, get-insert}
use procpool.Common.SameEntries.{SameEntries}
use procpool.Outcome.{Outcome, index}
use procpool.Outcome.Store.{Outcomes, num}
use procpool.Outcome.Store.Kept.{insert-IsStore}
use procpool.Outcome.Store.Order.{num-SameEntries}
use procpool.Outcome.Store.Removal.{IsStore}
use native.Mathlib.Nat.{ℕ_set}

-- A map with unique keys, each outcome under its own index.
abbrev pub StoreMap {ℓ} : Type ℓ → Type ℓ → Type ℓ → Type ℓ
StoreMap I O E = (m : Outcomes I O E) × IsStore m

-- Two maps are one view where they hold the same entries.
abbrev pub View {ℓ} : Type ℓ → Type ℓ → Type ℓ → Type ℓ
View I O E = Quot {α = StoreMap I O E} (λ a b. SameEntries a.0 b.0)

module _ {ℓ} {I O E : Type ℓ} where
  abbrev pub view : (m : Outcomes I O E) → IsStore m → View I O E
  view m v = Quot.mk (m, v)

  -- How many outcomes pass a test.
  unfoldable pub num_of : (Outcome I O E → Bool) → View I O E → ℕ
  num_of test =
      Quot.lift ℕ_set (λ a. num test a.0) (λ a b same. num-SameEntries a.0 b.0 a.1 b.1 same test)

  pub insert-SameEntries :
      (o : Outcome I O E) (m m' : Outcomes I O E)
      → SameEntries m m'
      → SameEntries (insert (index o) o m) (insert (index o) o m')
  insert-SameEntries o m m' same k =
      ground (arith, same k, get-insert (index o) k o m, get-insert (index o) k o m')

  -- `HashMap::insert` of an outcome under its index.
  unfoldable pub add : Outcome I O E → View I O E → View I O E
  add o =
      Quot.lift Quot-set (λ a. view (insert (index o) o a.0) (insert-IsStore o a.0 a.1))
        (λ a b same. Quot.sound (insert-SameEntries o a.0 b.0 same))

  -- Outcomes with different indices may be added in either order.
  pub add_comm :
      (o p : Outcome I O E) (v : View I O E) → index o ≢ index p → add o (add p v) ≡ add p (add o v)
  unfolding add
  add_comm o p v apart =
      Quot.ind (λ v. Quot-set (add o (add p v)) (add p (add o v)))
        (λ a. Quot.sound (λ k. ground (
          arith,
          apart,
          get-insert (index o) k o (insert (index p) p a.0),
          get-insert (index p) k p a.0,
          get-insert (index p) k p (insert (index o) o a.0),
          get-insert (index o) k o a.0,
          ==_iff (index o) k,
          ==_iff (index p) k,
        )))
        v
