-- ===== src/Outcome/Store/Removal.antt =====
-- src/hive/outcome/store.rs: the operations that take outcomes out of a store.
use mathlib.Core.List.{append_assoc}
use procpool.Common.{
  ◌≡◌, refl, sym, subst, inl, inr, [], ◌∷◌, ◌++◌, map, Bool, true, false, arith, Option, none, some,
  if◌then◌else◌, Exec, done, Bool-cases,
}
use procpool.Common.Maps.{Unique, get_middle, remove_middle, remove-Unique}
use procpool.Outcome.{
  Outcome, success, unprocessed, is_success, is_unprocessed, is_failure, index, unwrap,
}
use procpool.Outcome.Store.{
  Outcomes, indices, remove_each, entries_with, unprocessed_value, failure_value, unprocessed_input,
  success_output, iter_unprocessed, iter_successes, iter_failures, remove_all_unprocessed,
  remove_all_successes, remove_all_failures,
}

module _ {ℓ} {I O E : Type ℓ} where
  -- Each outcome is stored under its own index.
  abbrev pub Indexed : Outcomes I O E → Type 0
  Indexed [] = Unit
  Indexed ((k, o) ∷ m) = (index o ≡ k) × Indexed m

  pub record IsStore (m : Outcomes I O E) : Type ℓ where
    pub unique : Unique m
    pub indexed : Indexed m

  -- The entries whose outcome fails the test.
  unfoldable pub without : (Outcome I O E → Bool) → Outcomes I O E → Outcomes I O E
  without test [] = []
  without test ((k, o) ∷ m) = if test o then without test m else (k, o) ∷ without test m

  -- `f` takes the value that `v` reads from the outcomes of a kind.
  pub record Takes {κ} {A : Type κ} (test : Outcome I O E → Bool)
      (f : Outcome I O E → Outcomes I O E → Exec (Outcomes I O E) A) (v : Outcome I O E → Option A)
      : Type (ℓ ⊔ κ) where
    pub hit :
        (o : Outcome I O E)
        → test o ≡ true
        → (a : A) × (v o ≡ some a) × ((m : Outcomes I O E) → f o m ≡ done a m)
    pub miss : (o : Outcome I O E) → test o ≡ false → v o ≡ none

  module _ {κ} {A : Type κ} {test : Outcome I O E → Bool}
      {f : Outcome I O E → Outcomes I O E → Exec (Outcomes I O E) A} {v : Outcome I O E → Option A}
      (t : Takes test f v) where
    remove_each_lem :
        (pre m : Outcomes I O E)
        → Unique (pre ++ m)
        → Indexed m
        → remove_each f (indices test m) (pre ++ m)
          ≡ done (entries_with v m) (pre ++ without test m)
    unfolding remove_each indices entries_with without
    remove_each_lem pre [] u i = refl
    remove_each_lem pre ((k, o) ∷ m) u i = elim (Bool-cases (test o)) [
      | inl e ↦ ground (
        arith,
        (t.hit o e).1,
        (t.hit o e).2 (pre ++ m),
        i.0,
        get_middle k o pre m u,
        remove_middle k o pre m u,
        remove_each_lem pre m (subst Unique (remove_middle k o pre m u) (remove-Unique k _ u)) i.1,
      )
      | inr e ↦ ground (
        arith,
        t.miss o e,
        append_assoc pre ((k, o) ∷ []) m,
        append_assoc pre ((k, o) ∷ []) (without test m),
        remove_each_lem (pre ++ (k, o) ∷ []) m
            (subst Unique (sym (append_assoc pre ((k, o) ∷ []) m)) u) i.1,
      )
    ]

    pub remove_each-entries :
        (m : Outcomes I O E)
        → IsStore m
        → remove_each f (indices test m) m ≡ done (entries_with v m) (without test m)
    remove_each-entries m s = remove_each_lem [] m s.unique s.indexed

  Takes-unprocessed :
      Takes is_unprocessed unprocessed_value (unprocessed_input {I = I} {O = O} {E = E})
  unfolding is_unprocessed unprocessed_value unprocessed_input
  Takes-unprocessed = record { hit = hit; miss = miss }
    where
      hit :
          (o : Outcome I O E)
          → is_unprocessed o ≡ true
          → (a : I) × (unprocessed_input o ≡ some a)
            × ((m : Outcomes I O E) → unprocessed_value o m ≡ done a m)
      hit (unprocessed a _) e = (a, refl, λ m. refl)
      hit _ e = absurd (cc)

      miss : (o : Outcome I O E) → is_unprocessed o ≡ false → unprocessed_input o ≡ none
      miss (unprocessed a _) e = cc
      miss _ e = refl

  -- On a map with unique keys, each outcome under its own index, `remove_all_unprocessed` does
  -- not panic, returns the index and the input of each unprocessed outcome as `iter_unprocessed`
  -- lists them, and leaves the other outcomes.
  pub remove_all_unprocessed-iter :
      (m : Outcomes I O E)
      → IsStore m
      → remove_all_unprocessed m ≡ done (iter_unprocessed m) (without is_unprocessed m)
  unfolding remove_all_unprocessed
  remove_all_unprocessed-iter m s = remove_each-entries Takes-unprocessed m s

  Takes-success : Takes is_success unwrap (success_output {I = I} {O = O} {E = E})
  unfolding is_success unwrap success_output
  Takes-success = record { hit = hit; miss = miss }
    where
      hit :
          (o : Outcome I O E)
          → is_success o ≡ true
          → (a : O) × (success_output o ≡ some a) × ((m : Outcomes I O E) → unwrap o m ≡ done a m)
      hit (success a _) e = (a, refl, λ m. refl)
      hit _ e = absurd (cc)

      miss : (o : Outcome I O E) → is_success o ≡ false → success_output o ≡ none
      miss (success a _) e = cc
      miss _ e = refl

  -- On a map with unique keys, each outcome under its own index, `remove_all_successes` does not
  -- panic, returns the index and the value of each success as `iter_successes` lists them, and
  -- leaves the other outcomes.
  pub remove_all_successes-iter :
      (m : Outcomes I O E)
      → IsStore m
      → remove_all_successes m ≡ done (iter_successes m) (without is_success m)
  unfolding remove_all_successes
  remove_all_successes-iter m s = remove_each-entries Takes-success m s

  abbrev failed : Outcome I O E → Option (Outcome I O E)
  failed o = if is_failure o then some o else none

  Takes-failure : Takes is_failure failure_value failed
  unfolding failure_value
  Takes-failure = record { hit = λ o e. (o, rw e, λ m. rw (e, failure_value)); miss = λ o e. rw e }

  entries_with-failed :
      (m : Outcomes I O E) → map (λ e. e.1) (entries_with failed m) ≡ iter_failures m
  unfolding entries_with iter_failures
  entries_with-failed [] = refl
  entries_with-failed ((k, o) ∷ m) = ground (arith, entries_with-failed m)

  -- On a map with unique keys, each outcome under its own index, `remove_all_failures` does not
  -- panic, returns the failures as `iter_failures` lists them, and leaves the other outcomes.
  pub remove_all_failures-iter :
      (m : Outcomes I O E)
      → IsStore m
      → remove_all_failures m ≡ done (iter_failures m) (without is_failure m)
  unfolding remove_all_failures
  remove_all_failures-iter m s =
      ground (arith, remove_each-entries Takes-failure m s, entries_with-failed m)

  -- On a map with unique keys, each outcome under its own index, `remove_all_unprocessed`,
  -- `remove_all_successes` and `remove_all_failures` do not panic, return what `iter_unprocessed`,
  -- `iter_successes` and `iter_failures` list of the map, and leave exactly the other outcomes.
  pub remove_all-iter :
      (m : Outcomes I O E)
      → IsStore m
      → (remove_all_unprocessed m ≡ done (iter_unprocessed m) (without is_unprocessed m))
        × (remove_all_successes m ≡ done (iter_successes m) (without is_success m))
        × (remove_all_failures m ≡ done (iter_failures m) (without is_failure m))
  remove_all-iter m s =
      (remove_all_unprocessed-iter m s, remove_all_successes-iter m s, remove_all_failures-iter m s)
