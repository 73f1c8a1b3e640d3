-- ===== src/Outcome/Store/Verdict.antt =====
-- src/hive/outcome/store.rs: the methods that turn a whole store into its values.
use mathlib.Core.List.{Perm}
use procpool.Common.{
  ◌≡◌, refl, List, [], ◌∷◌, map, Option, none, some, Bool, not, ◌&&◌, if◌then◌else◌, filter, ok,
  err, Exec, done, panicked, arith, collect, pure, ◌>>=◌,
}
use procpool.Common.Maps.{values}
use procpool.Common.Sorting.{sort, IsSorted, sort-IsSorted, sort-perm}
use procpool.Outcome.{
  Outcome, success, failure, max_retries_attempted, is_success, index, unwrap, into_error,
}
use procpool.Outcome.Store.{
  Outcomes, has_failures, has_unprocessed, remove_all, iter_successes, iter_failures, entries_with,
  success_output,
}
use procpool.Outcome.Store.Owned.{unwrap_all, ok_or_unwrap_errors, into_iter}

abbrev pub cons_both {κ} : {A : Type κ} → Option A → Option (List A) → Option (List A)
cons_both (some a) (some rest) = some (a ∷ rest)
cons_both _ _ = none

abbrev pub unless_panics {κ μ} : {S : Type κ} {A : Type μ} → Option A → S → Exec S A
unless_panics none s = panicked s
unless_panics (some a) s = done a s

collect_cons {ℓ κ} :
    {E : Type ℓ} {S : Type κ} (e : E) (r : Option (List E)) (s : S)
    → ((do es ← unless_panics r; pure (e ∷ es)) s) ≡ unless_panics (cons_both (some e) r) s
collect_cons e none s = refl
collect_cons e (some es) s = refl

module _ {ℓ} {I O E : Type ℓ} where
  -- `remove_all` empties the map and returns all of its outcomes, each once, in the order of
  -- their indices.
  pub remove_all-IsSorted :
      (m : Outcomes I O E)
      → (os : List (Outcome I O E)) × (remove_all m ≡ done os [])
        × IsSorted index os
        × Perm os (values m)
  unfolding remove_all
  remove_all-IsSorted m =
      (sort index (values m), refl, sort-IsSorted index (values m), sort-perm index (values m))

  -- The error that a failure holds; a panic holds none.
  abbrev pub error_of : Outcome I O E → Option E
  error_of (failure _ e _) = some e
  error_of (max_retries_attempted _ e _) = some e
  error_of _ = none

  -- The errors of all the outcomes, if each holds one.
  abbrev pub errors_of : List (Outcome I O E) → Option (List E)
  errors_of [] = some []
  errors_of (o ∷ os) = cons_both (error_of o) (errors_of os)

  module _ {κ} {S : Type κ} where
    collect-into_error :
        (os : List (Outcome I O E)) (s : S)
        → collect into_error os s ≡ unless_panics (errors_of os) s
    unfolding collect into_error
    collect-into_error [] s = refl
    collect-into_error (failure _ e _ ∷ os) s =
        ground (arith, collect-into_error os s, collect_cons e (errors_of os) s)
    collect-into_error (max_retries_attempted _ e _ ∷ os) s =
        ground (arith, collect-into_error os s, collect_cons e (errors_of os) s)
    collect-into_error (_ ∷ os) s = refl

    collect-unwrap :
        (m : Outcomes I O E) (s : S)
        → collect unwrap (filter is_success (values m)) s
          ≡ done (map (λ e. e.1) (iter_successes m)) s
    unfolding collect unwrap filter is_success entries_with success_output
    collect-unwrap [] s = refl
    collect-unwrap ((k, success v i) ∷ m) s = ground (arith, collect-unwrap m s)
    collect-unwrap ((k, _) ∷ m) s = collect-unwrap m s

    -- `ok_or_unwrap_errors` on every store: it panics where an unprocessed outcome is not to be
    -- dropped; where there are failures it returns the errors of all of them, and panics if one
    -- holds no error; without failures it panics if there is an unprocessed outcome, dropped or
    -- not, and otherwise returns the values of the successes.
    pub ok_or_unwrap_errors-verdict :
        (drop_unprocessed : Bool) (m : Outcomes I O E) (s : S)
        → ok_or_unwrap_errors drop_unprocessed m s ≡ (
            if not drop_unprocessed && has_unprocessed m
            then panicked s
            else if has_failures m
            then elim (errors_of (iter_failures m)) [
              | none ↦ panicked s
              | some es ↦ done (err es) s
            ]
            else if has_unprocessed m
            then panicked s
            else done (ok (map (λ e. e.1) (iter_successes m))) s)
    unfolding ok_or_unwrap_errors unwrap_all into_iter iter_failures
    ok_or_unwrap_errors-verdict drop_unprocessed m s =
        ground (arith, collect-into_error (iter_failures m) s, collect-unwrap m s)
