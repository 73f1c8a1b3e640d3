-- ===== src/Delay.antt =====
-- src/hive/delay.rs: `DelayQueue`. The binary heap is the list of its entries; `pop` takes a greatest
-- one by `Delayed::cmp`, the first in the list where several are greatest. Instants and durations are
-- numbers of nanoseconds; the clock is an argument.
pub mod Laws
use Prim.Native.Nat.{compare, Ordering}
use procpool.Common.{
  ℕ, ◌+◌, List, [], ◌∷◌, map, Option, none, some, Bool, true, false, leb, if◌then◌else◌,
}
use mathlib.Core.Option

pub record Delayed {ℓ} (T : Type ℓ) : Type ℓ where
  pub value : T
  pub until : ℕ

abbrev pub DelayQueue {ℓ} : Type ℓ → Type ℓ
DelayQueue T = List (Delayed T)

module _ {ℓ} {T : Type ℓ} where
  unfoldable pub new_delayed : ℕ → T → ℕ → Delayed T
  new_delayed now value delay = record { value = value; until = now + delay }

  -- Earlier entries are greater.
  unfoldable pub cmp : Delayed T → Delayed T → Ordering
  cmp a b = compare b.until a.until

  unfoldable pub partial_cmp : Delayed T → Delayed T → Option Ordering
  unfolding cmp
  partial_cmp a b = some (cmp a b)

  -- `PartialEq::eq`
  unfoldable pub delayed_eq : Delayed T → Delayed T → Bool
  unfolding cmp
  delayed_eq a b = elim (cmp a b) [ Ordering.eq ↦ true | _ ↦ false ]

  unfoldable pub default : DelayQueue T
  default = []

  -- `BinaryHeap::pop`: a greatest entry, and the others.
  unfoldable pub heap_pop : DelayQueue T → Option (Delayed T × DelayQueue T)
  unfolding cmp
  heap_pop [] = none
  heap_pop (d ∷ ds) = elim (heap_pop ds) [
    | none ↦ some (d, [])
    | some (e, rest) ↦ elim (cmp d e) [ Ordering.lt ↦ some (e, d ∷ rest) | _ ↦ some (d, ds) ]
  ]

  unfoldable pub heap_peek : DelayQueue T → Option (Delayed T)
  unfolding heap_pop
  heap_peek q = Option.map (λ r. r.0) (heap_pop q)

  -- The instant at which the item is available, and the queue with it.
  unfoldable pub push : ℕ → T → ℕ → DelayQueue T → ℕ × DelayQueue T
  unfolding new_delayed
  push now item delay q = let delayed = new_delayed now item delay in (delayed.until, delayed ∷ q)

  unfoldable pub next_available : DelayQueue T → Option ℕ
  unfolding heap_peek
  next_available q = Option.map (λ d. d.until) (heap_peek q)

  unfoldable pub try_pop : ℕ → DelayQueue T → Option T × DelayQueue T
  unfolding heap_peek
  try_pop now q =
      if Option.get_or (Option.map (λ d. leb d.until now) (heap_peek q)) false
      then elim (heap_pop q) [ none ↦ (none, q) | some (d, rest) ↦ (some d.value, rest) ]
      else (none, q)

  unfoldable pub drain : DelayQueue T → List T × DelayQueue T
  drain q = (map (λ d. d.value) q, [])
