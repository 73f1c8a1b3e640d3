-- ===== src/Outcome/Store/Deref.antt =====
-- src/hive/outcome/store.rs: the traits `DerefOutcomes` and `OwnedOutcomes`, through which the
-- operations of a store reach its map; and src/hive/outcome/batch.rs, a batch as a store.
use procpool.Common.{
  ℕ, ◌≡◌, refl, ap, List, [], ◌∷◌, Bool, true, false, not, none, Exec, done, ◌>>=◌, pure, zoom,
  arith, filter, ◌||◌,
}
use procpool.Outcome.{
  Outcome, success, missing, unprocessed, is_success, is_unprocessed, is_failure,
}
use procpool.Outcome.Store.{
  Outcomes, success_output, iter_unprocessed, iter_successes, iter_failures, remove_all_unprocessed,
  remove_all_successes, remove_all_failures,
}
use procpool.Outcome.Store.Counts.{is_missing}
use procpool.Outcome.Store.Kept.{without-IsStore, entries_with-without}
use procpool.Outcome.Store.Removal.{
  IsStore, without, remove_all_unprocessed-iter, remove_all_successes-iter,
  remove_all_failures-iter,
}

-- The map that a store reads, and the store once its map is another.
pub record DerefOutcomes {ℓ} (S I O E : Type ℓ) : Type ℓ where
  pub outcomes_deref : S → Outcomes I O E
  pub outcomes_deref_mut : S → Outcomes I O E → S
  pub read_written : (s : S) (m : Outcomes I O E) → outcomes_deref (outcomes_deref_mut s m) ≡ m
  pub write_twice :
      (s : S) (m m' : Outcomes I O E)
      → outcomes_deref_mut (outcomes_deref_mut s m) m' ≡ outcomes_deref_mut s m'

-- A store that can be taken apart or borrowed from.
pub record OwnedOutcomes {ℓ} (S I O E : Type ℓ) : Type ℓ where
  pub deref : DerefOutcomes S I O E
  pub outcomes : S → Outcomes I O E
  pub outcomes_ref : S → Outcomes I O E
  pub owned : (s : S) → outcomes s ≡ deref.outcomes_deref s
  pub borrowed : (s : S) → outcomes_ref s ≡ deref.outcomes_deref s

module _ {ℓ} {I O E : Type ℓ} where
  -- An `OutcomeBatch` is its map.
  instance abbrev pub batch_deref : DerefOutcomes (Outcomes I O E) I O E
  batch_deref = record {
    outcomes_deref = λ s. s;
    outcomes_deref_mut = λ s m. m;
    read_written = λ s m. refl;
    write_twice = λ s m m'. refl;
  }

  instance abbrev pub batch_owned : OwnedOutcomes (Outcomes I O E) I O E
  batch_owned = record {
    deref = batch_deref;
    outcomes = λ s. s;
    outcomes_ref = λ s. s;
    owned = λ s. refl;
    borrowed = λ s. refl;
  }

module _ {ℓ} {S I O E : Type ℓ} ⦃d : DerefOutcomes S I O E⦄ where
  -- An operation of `OutcomeStore`, on the store.
  abbrev pub on_store {κ} : {A : Type κ} → (Outcomes I O E → Exec (Outcomes I O E) A) → S → Exec S A
  on_store m = zoom d.outcomes_deref d.outcomes_deref_mut m

  -- The three kinds of outcomes that can be taken out of a store, one after the other.
  abbrev pub take_kinds : S → Exec S (List (ℕ × I) × List (ℕ × O) × List (Outcome I O E))
  take_kinds = do
    inputs ← on_store remove_all_unprocessed
    outputs ← on_store remove_all_successes
    failures ← on_store remove_all_failures
    pure (inputs, outputs, failures)

module _ {ℓ} {I O E : Type ℓ} where
  only_missing :
      (m : Outcomes I O E)
      → without is_failure (without is_success (without is_unprocessed m))
        ≡ without (λ o. not (is_missing o)) m
  unfolding without is_failure is_success is_unprocessed is_missing
  only_missing [] = refl
  only_missing ((k, missing i) ∷ m) = ap (λ rest. (k, missing i) ∷ rest) (only_missing m)
  only_missing ((k, _) ∷ m) = only_missing m

  not_success : (o : Outcome I O E) → is_unprocessed o ≡ true → success_output o ≡ none
  unfolding is_unprocessed success_output
  not_success (success _ _) e = absurd (cc)
  not_success _ e = refl

  not_failure :
      (o : Outcome I O E) → (is_unprocessed o || is_success o) ≡ true → is_failure o ≡ false
  unfolding is_unprocessed is_success is_failure
  not_failure (success _ _) e = refl
  not_failure (unprocessed _ _) e = refl
  not_failure _ e = absurd (cc)

  iter_failures-without :
      (test : Outcome I O E → Bool)
      → ((o : Outcome I O E) → test o ≡ true → is_failure o ≡ false)
      → (m : Outcomes I O E) → iter_failures (without test m) ≡ iter_failures m
  unfolding iter_failures without filter
  iter_failures-without test apart [] = refl
  iter_failures-without test apart ((k, o) ∷ m) =
      ground (arith, apart o, iter_failures-without test apart m)

module _ {ℓ} {S I O E : Type ℓ} ⦃d : DerefOutcomes S I O E⦄ where
  -- Through any type of store, whose map has unique keys and each outcome under its own index, the
  -- three operations `remove_all_unprocessed`, `remove_all_successes` and `remove_all_failures`, one
  -- after the other, do not panic. They return what the three iterators listed of the map at first,
  -- no outcome twice, and leave the store with the missing outcomes alone.
  pub take_kinds-all :
      (s : S)
      → IsStore (d.outcomes_deref s)
      → let m = d.outcomes_deref s in
        take_kinds s
        ≡ done
            (iter_unprocessed m, iter_successes m, iter_failures m)
            (d.outcomes_deref_mut s (without (λ o. not (is_missing o)) m))
  take_kinds-all s v =
      let m = d.outcomes_deref s in
      let m' = without is_unprocessed m in
      let m'' = without is_success m' in
      let v' = without-IsStore is_unprocessed m v in
      let v'' = without-IsStore is_success m' v' in
      ground (
        arith,
        remove_all_unprocessed-iter m v,
        remove_all_successes-iter m' v',
        remove_all_failures-iter m'' v'',
        entries_with-without is_unprocessed success_output not_success m,
        iter_failures-without is_unprocessed (λ o e. not_failure o (ground arith)) m,
        iter_failures-without is_success (λ o e. not_failure o (ground arith)) m',
        only_missing m,
        d.read_written s m',
        d.read_written (d.outcomes_deref_mut s m') m'',
        d.write_twice s m' m'',
        d.write_twice s m'' (without is_failure m''),
      )
