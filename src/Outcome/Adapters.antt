-- ===== src/Outcome/Adapters.antt =====
-- src/hive/outcome/iter.rs: `OutcomeIteratorExt`, on the outcomes that an iterator yields until it ends.
-- An adapter is read to its end; where a conversion panics, the caller unwinds.
pub mod Laws
use procpool.Common.{
  ℕ, ◌+◌, List, [], ◌∷◌, length, take, filter, contains, Option, none, some, if◌then◌else◌, Result,
  Exec, panic, collect,
}
use procpool.Outcome.{Outcome, index, unwrap, into_result}
use procpool.Outcome.Iter.{new, read_items}

-- `HashSet::len` of the indices, collected.
abbrev pub distinct : List ℕ → List ℕ
distinct [] = []
distinct (i ∷ is) = if contains is i then distinct is else i ∷ distinct is

module _ {ℓ} {I O E : Type ℓ} where
  -- What the ordered iterator yields until it ends. An iterator that yields more items than it has
  -- indices repeats a missing outcome: it is read to one item more, which shows that it does.
  unfoldable pub ordered_items : List ℕ → List (Outcome I O E) → Option (List (Outcome I O E))
  unfolding new read_items
  ordered_items indices os = read_items (length indices + 1) (new os indices)

  -- The outcomes that `take_results` and `take_outputs` convert.
  unfoldable pub taken : List ℕ → List (Outcome I O E) → List (Outcome I O E)
  unfolding filter contains index
  taken indices os = take (length (distinct indices)) (filter (λ o. contains indices (index o)) os)

  module _ {κ} {S : Type κ} where
    unfoldable pub into_results : List (Outcome I O E) → S → Exec S (List (Result O E))
    unfolding collect into_result
    into_results os = collect into_result os

    unfoldable pub take_results : List ℕ → List (Outcome I O E) → S → Exec S (List (Result O E))
    unfolding taken collect into_result
    take_results indices os = collect into_result (taken indices os)

    -- A missing outcome has no result: the conversion panics at the first one.
    unfoldable pub take_ordered_results :
        List ℕ → List (Outcome I O E) → S → Exec S (List (Result O E))
    unfolding ordered_items collect into_result
    take_ordered_results indices os = elim (ordered_items indices os) [
      | none ↦ panic
      | some items ↦ collect into_result items
    ]

    unfoldable pub into_outputs : List (Outcome I O E) → S → Exec S (List O)
    unfolding collect unwrap
    into_outputs os = collect unwrap os

    unfoldable pub take_outputs : List ℕ → List (Outcome I O E) → S → Exec S (List O)
    unfolding taken collect unwrap
    take_outputs indices os = collect unwrap (taken indices os)

    unfoldable pub take_ordered_outputs : List ℕ → List (Outcome I O E) → S → Exec S (List O)
    unfolding ordered_items collect unwrap
    take_ordered_outputs indices os = elim (ordered_items indices os) [
      | none ↦ panic
      | some items ↦ collect unwrap items
    ]
