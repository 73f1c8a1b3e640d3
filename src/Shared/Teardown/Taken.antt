-- ===== src/Shared/Teardown/Taken.antt =====
-- src/hive/shared.rs, `take_unprocessed`.
use mathlib.Core.List.{append_assoc}
use procpool.Common.{
  ℕ, ◌≡◌, refl, sym, subst, List, [], ◌∷◌, ◌++◌, map, Option, none, some, false, arith,
  if◌then◌else◌, Bool, filter, done, collect,
}
use procpool.Common.Maps.{Unique, get, get_middle, keys}
use procpool.Outcome.{Outcome, unprocessed, is_unprocessed}
use procpool.Outcome.Store.{
  Outcomes, indices, entries_with, unprocessed_value, unprocessed_input, iter_unprocessed,
}
use procpool.Outcome.Store.Removal.{Indexed, IsStore, Takes, remove_each-entries, without}
use procpool.Shared.{Shared}
use procpool.Shared.Teardown.{unprocessed_keys, take_unprocessed}

module _ {ℓ} {I O E : Type ℓ} where
  -- The inputs of the unprocessed outcomes, as `iter_unprocessed` lists them.
  abbrev pub unprocessed_inputs : Outcomes I O E → List I
  unprocessed_inputs m = map (λ e. e.1) (iter_unprocessed m)

  abbrev is_unprocessed_at : Outcomes I O E → ℕ → Bool
  is_unprocessed_at m i = elim (get i m) [ none ↦ false | some o ↦ is_unprocessed o ]

  unprocessed_keys_lem :
      (pre m : Outcomes I O E)
      → Unique (pre ++ m)
      → Indexed m
      → filter (is_unprocessed_at (pre ++ m)) (keys m) ≡ indices is_unprocessed m
  unfolding indices filter
  unprocessed_keys_lem pre [] u i = refl
  unprocessed_keys_lem pre ((k, o) ∷ m) u i = ground (
    arith,
    i.0,
    get_middle k o pre m u,
    append_assoc pre ((k, o) ∷ []) m,
    unprocessed_keys_lem (pre ++ (k, o) ∷ []) m
        (subst Unique (sym (append_assoc pre ((k, o) ∷ []) m)) u) i.1,
  )

  unprocessed_keys-indices :
      (m : Outcomes I O E) → IsStore m → unprocessed_keys m ≡ indices is_unprocessed m
  unfolding unprocessed_keys
  unprocessed_keys-indices m s = unprocessed_keys_lem [] m s.unique s.indexed

  -- The unprocessed outcomes themselves.
  abbrev whole : Outcome I O E → Option (Outcome I O E)
  whole o = if is_unprocessed o then some o else none

  Takes-whole : Takes is_unprocessed (λ o m. done o m) whole
  Takes-whole = record { hit = λ o e. (o, rw e, λ m. refl); miss = λ o e. rw e }

module _ {ℓ} {I O E Q : Type ℓ} where
  pub collect-unprocessed_value :
      (m : Outcomes I O E) (s : Shared I O E Q)
      → collect unprocessed_value (map (λ e. e.1) (entries_with whole m)) s
        ≡ done (unprocessed_inputs m) s
  unfolding collect unprocessed_value unprocessed_input entries_with is_unprocessed
  collect-unprocessed_value [] s = refl
  collect-unprocessed_value ((k, unprocessed v i) ∷ m) s =
      ground (arith, collect-unprocessed_value m s)
  collect-unprocessed_value ((k, _) ∷ m) s = collect-unprocessed_value m s

  pub take_unprocessed-lem :
      (s : Shared I O E Q)
      → IsStore s.outcomes
      → take_unprocessed s
        ≡ done
            (map (λ e. e.1) (entries_with whole s.outcomes))
            (record s { outcomes = without is_unprocessed s.outcomes })
  unfolding take_unprocessed
  take_unprocessed-lem s v =
      ground
        (arith, unprocessed_keys-indices s.outcomes v, remove_each-entries Takes-whole s.outcomes v)

  -- Only the map of outcomes is another one.
  pub take_unprocessed-only :
      (s t : Shared I O E Q) (taken : List (Outcome I O E))
      → take_unprocessed s ≡ done taken t
      → t ≡ record s { outcomes = t.outcomes }
  unfolding take_unprocessed
  take_unprocessed-only s t taken e = ground arith
