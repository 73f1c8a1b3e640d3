-- ===== src/Outcome/Store/Owned.antt =====
-- src/hive/outcome/store.rs: the methods that consume a store.
use procpool.Common.{
  ℕ, List, Option, Bool, not, ◌||◌, if◌then◌else◌, filter, any, Result, ok, err, Exec, ◌>>=◌, ◌>>◌,
  pure, assert, collect, unwrap_option,
}
use procpool.Common.Maps.{values}
use procpool.Common.Maps
use procpool.Common.Sorting.{sort}
use procpool.Outcome.{
  Outcome, is_success, is_unprocessed, is_failure, index, unwrap, into_input, into_error,
}
use procpool.Outcome.Store.{Outcomes, has, has_failures, has_unprocessed}

module _ {ℓ} {I O E : Type ℓ} where
  -- The order is that of the map, not that of the indices.
  unfoldable pub into_iter : Outcomes I O E → List (Outcome I O E)
  into_iter m = values m

  unfoldable pub get : Outcomes I O E → ℕ → Option (Outcome I O E)
  unfolding Maps.get
  get m i = Maps.get i m

  module _ {κ} {S : Type κ} where
    unfoldable pub unwrap_all : Outcomes I O E → S → Exec S (List O)
    unfolding has any filter collect is_success is_failure is_unprocessed unwrap
    unwrap_all m = do
      assert (not (has_failures m || has_unprocessed m))
      collect unwrap (filter is_success (values m))

    unfoldable pub ok_or_unwrap_errors :
        Bool → Outcomes I O E → S → Exec S (Result (List O) (List E))
    unfolding unwrap_all into_iter into_error
    ok_or_unwrap_errors drop_unprocessed m = do
      assert (drop_unprocessed || not (has_unprocessed m))
      if has_failures m
          then (do
            failures ← collect into_error (filter is_failure (into_iter m))
            pure (err failures))
          else (do outputs ← unwrap_all m; pure (ok outputs))

    unfoldable pub into_unprocessed : Bool → Outcomes I O E → S → Exec S (List I)
    unfolding filter collect sort index into_input is_unprocessed
    into_unprocessed ordered m =
        let os = filter is_unprocessed (values m) in
        collect (λ o. unwrap_option (into_input o)) (if ordered then sort index os else os)
