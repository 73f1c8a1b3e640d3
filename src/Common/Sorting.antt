-- ===== src/Common/Sorting.antt =====
-- The stable sort of a vector by a numeric key (`Vec::sort` on values ordered by that key).
use Prim.Native.Nat.{ℕ, ◌≤◌}
use mathlib.Core.List.{List, [], ◌∷◌, Perm}
use mathlib.Core.List.Perm
use mathlib.Core.Logic.{inl, inr}
use native.Mathlib.Omega.{arith}
use procpool.Common.Tests.{leb, if◌then◌else◌, Bool-cases}

module _ {ℓ} {A : Type ℓ} (key : A → ℕ) where
  unfoldable pub insert_sorted : A → List A → List A
  insert_sorted x [] = x ∷ []
  insert_sorted x (y ∷ ys) = if leb (key x) (key y) then x ∷ y ∷ ys else y ∷ insert_sorted x ys

  unfoldable pub sort : List A → List A
  unfolding insert_sorted
  sort [] = []
  sort (x ∷ xs) = insert_sorted x (sort xs)

  -- Every key is at most those behind it.
  abbrev pub Bounds : ℕ → List A → Type 0
  Bounds n [] = Unit
  Bounds n (x ∷ xs) = (n ≤ key x) × Bounds n xs

  abbrev pub IsSorted : List A → Type 0
  IsSorted [] = Unit
  IsSorted (x ∷ xs) = Bounds (key x) xs × IsSorted xs

  Bounds-mono : (m n : ℕ) (xs : List A) → m ≤ n → Bounds n xs → Bounds m xs
  Bounds-mono m n [] h b = tt
  Bounds-mono m n (x ∷ xs) h b = (omega arith, Bounds-mono m n xs h b.1)

  insert_sorted-Bounds :
      (n : ℕ) (x : A) (xs : List A) → n ≤ key x → Bounds n xs → Bounds n (insert_sorted x xs)
  unfolding insert_sorted
  insert_sorted-Bounds n x [] h b = (h, tt)
  insert_sorted-Bounds n x (y ∷ ys) h b = ground (arith, insert_sorted-Bounds n x ys h b.1)

  insert_sorted-IsSorted : (x : A) (xs : List A) → IsSorted xs → IsSorted (insert_sorted x xs)
  unfolding insert_sorted
  insert_sorted-IsSorted x [] s = (tt, tt)
  insert_sorted-IsSorted x (y ∷ ys) s = ground (
    arith,
    insert_sorted-IsSorted x ys s.1,
    insert_sorted-Bounds (key y) x ys,
    Bounds-mono (key x) (key y) ys,
  )

  pub sort-IsSorted : (xs : List A) → IsSorted (sort xs)
  unfolding sort
  sort-IsSorted [] = tt
  sort-IsSorted (x ∷ xs) = insert_sorted-IsSorted x (sort xs) (sort-IsSorted xs)

  insert_sorted-perm : (x : A) (xs : List A) → Perm (insert_sorted x xs) (x ∷ xs)
  unfolding insert_sorted
  insert_sorted-perm x [] = Perm.rfl
  insert_sorted-perm x (y ∷ ys) = elim (Bool-cases (leb (key x) (key y))) [
    | inl e ↦ rw e Perm.rfl
    | inr e ↦ rw e (Perm.trans (Perm.cons y (insert_sorted-perm x ys)) (Perm.swap x y ys))
  ]

  pub sort-perm : (xs : List A) → Perm (sort xs) xs
  unfolding sort
  sort-perm [] = Perm.rfl
  sort-perm (x ∷ xs) = Perm.trans (insert_sorted-perm x (sort xs)) (Perm.cons x (sort-perm xs))
