-- ===== src/Cores/Laws.antt =====
-- src/hive/cores.rs: sets of core indices.
use mathlib.Core.List.{append_assoc, append-nil}
use procpool.Common.{
  ℕ, ◌≡◌, refl, sym, subst, ap, [], ◌∷◌, ◌++◌, Bool, true, false, not, ◌&&◌, ◌||◌, arith, filter,
  contains, ==_iff, ◌==◌, ◌⊎◌, Bool-cases, inl, inr,
}
use procpool.Cores.{Cores, append, union, bitor_assign}

-- No index stands twice.
abbrev pub IsIndexSet : Cores → Type 0
IsIndexSet [] = Unit
IsIndexSet (i ∷ is) = (contains is i ≡ false) × IsIndexSet is

pub contains-append :
    (xs ys : Cores) (i : ℕ) → contains (xs ++ ys) i ≡ (contains xs i || contains ys i)
unfolding contains
contains-append [] ys i = refl
contains-append (x ∷ xs) ys i = ground (arith, contains-append xs ys i)

pub contains-filter :
    (p : ℕ → Bool) (xs : Cores) (i : ℕ) → contains (filter p xs) i ≡ (contains xs i && p i)
unfolding contains filter
contains-filter p [] i = refl
contains-filter p (x ∷ xs) i = ground (arith, contains-filter p xs i, ==_iff x i, ap p)

contains-snoc : (xs : Cores) (j i : ℕ) → contains (xs ++ j ∷ []) i ≡ (contains xs i || (j == i))
unfolding contains
contains-snoc [] j i = ground arith
contains-snoc (x ∷ xs) j i = ground (arith, contains-snoc xs j i)

contains-same :
    (xs : Cores) (j i : ℕ) → contains xs j ≡ true → contains xs i ≡ (contains xs i || (j == i))
contains-same xs j i e = elim (Bool-cases (j == i)) [
  | inl same ↦
      let ij : j ≡ i = ground arith in
      let there : contains xs i ≡ true = subst (λ k. contains xs k ≡ true) ij e in rw there refl
  | inr other ↦ ground arith
]

-- The parts of `append`: the index is there afterwards, and the sequence grows by what it says.
append_lem :
    (j : ℕ) (cores : Cores)
    → ((append j cores ≡ (false, cores)) × (contains cores j ≡ true))
      ⊎ ((append j cores ≡ (true, cores ++ j ∷ [])) × (contains cores j ≡ false))
unfolding append
append_lem j cores = elim (Bool-cases (contains cores j)) [
  | inl e ↦ inl (rw e refl, e)
  | inr e ↦ inr (rw e refl, e)
]

or_assoc : (a b c : Bool) → ((a || b) || c) ≡ (a || (b || c))
or_assoc true b c = refl
or_assoc false b c = refl

-- After `union` the set contains exactly the indices that one of the two sets contained.
pub union-contains :
    (other cores : Cores) (i : ℕ)
    → contains (union other cores).1 i ≡ (contains cores i || contains other i)
unfolding union contains
union-contains [] cores i = ground arith
union-contains (j ∷ other) cores i = elim (append_lem j cores) [
  | inl (e, there) ↦ ground (
    arith,
    e,
    union-contains other cores i,
    contains-same cores j i there,
    or_assoc (contains cores i) (j == i) (contains other i),
  )
  | inr (e, not_there) ↦ ground (
    arith,
    e,
    union-contains other (cores ++ j ∷ []) i,
    contains-snoc cores j i,
    or_assoc (contains cores i) (j == i) (contains other i),
  )
]

filter-snoc :
    (other cores : Cores) (j : ℕ)
    → contains other j ≡ false
    → filter (λ i. not (contains (cores ++ j ∷ []) i)) other
      ≡ filter (λ i. not (contains cores i)) other
unfolding filter contains
filter-snoc [] cores j e = refl
filter-snoc (i ∷ other) cores j e =
    ground (arith, contains-snoc cores j i, filter-snoc other cores j)

-- Where the other sequence has no repetitions, `union` leaves the same sequence as `|=`.
pub union-bitor_assign :
    (other cores : Cores) → IsIndexSet other → (union other cores).1 ≡ bitor_assign other cores
unfolding union bitor_assign filter
union-bitor_assign [] cores s = sym (append-nil cores)
union-bitor_assign (j ∷ other) cores s = elim (append_lem j cores) [
  | inl (e, there) ↦ ground (arith, e, union-bitor_assign other cores s.1)
  | inr (e, not_there) ↦ ground (
    arith,
    e,
    union-bitor_assign other (cores ++ j ∷ []) s.1,
    filter-snoc other cores j s.0,
    append_assoc cores (j ∷ []) (filter (λ i. not (contains cores i)) other),
  )
]

-- Where nothing is added, nothing changes.
pub union_none : (other cores : Cores) → (union other cores).0 ≡ 0 → (union other cores).1 ≡ cores
unfolding union
union_none [] cores e = refl
union_none (j ∷ other) cores e = elim (append_lem j cores) [
  | inl (p, there) ↦ ground (arith, p, union_none other cores)
  | inr (p, not_there) ↦ ground (arith, p)
]
