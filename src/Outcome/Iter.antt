-- ===== src/Outcome/Iter.antt =====
-- src/hive/outcome/iter.rs: `OutcomeIterator`, which puts outcomes back into the order of the
-- indices. The inner iterator is the list of what it has left to yield.
pub mod Fuel
pub mod Serve
pub mod Ordered
pub mod Exhausted
use procpool.Common.{
  ℕ, zero, suc, ◌+◌, ◌*◌, List, [], ◌∷◌, map, Option, none, some, ◌==◌, if◌then◌else◌, length, take,
  contains,
}
use procpool.Common.Maps.{get, insert, remove}
use procpool.Outcome.{Outcome, missing, index}
use procpool.Outcome.Store.{Outcomes}

pub record OutcomeIterator {ℓ} (I O E : Type ℓ) : Type ℓ where
  pub inner : List (Outcome I O E)
  pub indices : List ℕ
  pub buf : Outcomes I O E

-- What one round of the loop of `next` does.
pub data Round {ℓ} (I O E : Type ℓ) : Type ℓ where
  ended : Round I O E
  yields : Outcome I O E → OutcomeIterator I O E → Round I O E
  again : OutcomeIterator I O E → Round I O E

module _ {ℓ} {I O E : Type ℓ} where
  unfoldable pub new : List (Outcome I O E) → List ℕ → OutcomeIterator I O E
  new inner indices = record { inner = take (length indices) inner; indices = indices; buf = [] }

  -- `self.buf.remove(next).or_else(|| self.inner.next())`
  unfoldable pub fetch : ℕ → OutcomeIterator I O E → Option (Outcome I O E × OutcomeIterator I O E)
  unfolding get remove
  fetch next it = elim (get next it.buf) [
    | some o ↦ some (o, record it { buf = remove next it.buf })
    | none ↦ elim it.inner [ [] ↦ none | o ∷ os ↦ some (o, record it { inner = os }) ]
  ]

  unfoldable pub round : OutcomeIterator I O E → Round I O E
  unfolding fetch contains insert index
  round it = elim it.indices [
    | [] ↦ ended
    | next ∷ rest ↦ elim (fetch next it) [
      | none ↦ yields (missing next) it
      | some (o, it') ↦
          if index o == next
          then yields o (record it' { indices = rest })
          else if contains it.indices (index o)
          then again (record it' { buf = insert (index o) o it'.buf })
          else again it'
    ]
  ]

  -- `next`. The outer `none` says that the fuel ran out.
  unfoldable pub next_within :
      ℕ → OutcomeIterator I O E → Option (Option (Outcome I O E) × OutcomeIterator I O E)
  unfolding round
  next_within zero it = none
  next_within (suc fuel) it = elim (round it) [
    | ended ↦ some (none, it)
    | yields o it' ↦ some (some o, it')
    | again it' ↦ next_within fuel it'
  ]

  abbrev pub fuel : OutcomeIterator I O E → ℕ
  fuel it = 2 * length it.inner + 2

  unfoldable pub next :
      OutcomeIterator I O E → Option (Option (Outcome I O E) × OutcomeIterator I O E)
  unfolding next_within
  next it = next_within (fuel it) it

  -- What a consumer gets that reads `n` items, or fewer where the iterator ends.
  unfoldable pub read_items : ℕ → OutcomeIterator I O E → Option (List (Outcome I O E))
  unfolding next
  read_items zero it = some []
  read_items (suc n) it = elim (next it) [
    | none ↦ none
    | some (none, it') ↦ some []
    | some (some o, it') ↦ elim (read_items n it') [ none ↦ none | some os ↦ some (o ∷ os) ]
  ]
