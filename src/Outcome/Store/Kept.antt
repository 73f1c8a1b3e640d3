-- ===== src/Outcome/Store/Kept.antt =====
-- src/hive/outcome/store.rs: what inserting into a map of outcomes and removing from it keeps.
use procpool.Common.{ℕ, ◌≡◌, refl, [], ◌∷◌, Option, none, Bool, true, arith}
use procpool.Common.Maps.{get, insert, Absent, Unique, insert-Unique}
use procpool.Outcome.{Outcome, index}
use procpool.Outcome.Store.{Outcomes, entries_with}
use procpool.Outcome.Store.Removal.{Indexed, IsStore, without}

module _ {ℓ} {I O E : Type ℓ} where
  insert-Indexed :
      (o : Outcome I O E) (m : Outcomes I O E) → Indexed m → Indexed (insert (index o) o m)
  unfolding insert
  insert-Indexed o [] i = (refl, tt)
  insert-Indexed o ((k, p) ∷ m) i = ground (arith, insert-Indexed o m i.1)

  pub insert-IsStore :
      (o : Outcome I O E) (m : Outcomes I O E) → IsStore m → IsStore (insert (index o) o m)
  insert-IsStore o m v = record {
    unique = insert-Unique (index o) o m v.unique;
    indexed = insert-Indexed o m v.indexed;
  }

  module _ (test : Outcome I O E → Bool) where
    without-Absent : (k : ℕ) (m : Outcomes I O E) → Absent k m → Absent k (without test m)
    unfolding get without
    without-Absent k [] a = a
    without-Absent k ((j, o) ∷ m) a = ground (arith, without-Absent k m)

    without-Unique : (m : Outcomes I O E) → Unique m → Unique (without test m)
    unfolding without
    without-Unique [] u = u
    without-Unique ((j, o) ∷ m) u = ground (arith, without-Absent j m, without-Unique m)

    without-Indexed : (m : Outcomes I O E) → Indexed m → Indexed (without test m)
    unfolding without
    without-Indexed [] i = i
    without-Indexed ((j, o) ∷ m) i = ground (arith, without-Indexed m)

    pub without-IsStore : (m : Outcomes I O E) → IsStore m → IsStore (without test m)
    without-IsStore m v = record {
      unique = without-Unique m v.unique;
      indexed = without-Indexed m v.indexed;
    }

    -- The values that are read from the other outcomes are still there.
    pub entries_with-without {κ} :
        {A : Type κ} (v : Outcome I O E → Option A)
        → ((o : Outcome I O E) → test o ≡ true → v o ≡ none)
        → (m : Outcomes I O E) → entries_with v (without test m) ≡ entries_with v m
    unfolding entries_with without
    entries_with-without v apart [] = refl
    entries_with-without v apart ((j, o) ∷ m) =
        ground (arith, apart o, entries_with-without v apart m)
