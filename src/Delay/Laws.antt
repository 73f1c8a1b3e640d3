-- ===== src/Delay/Laws.antt =====
-- src/hive/delay.rs: what `try_pop` and `next_available` return.
use mathlib.Core.List.{Perm}
use mathlib.Core.List.Perm
use procpool.Common.{
  ℕ, suc, ◌≤◌, ◌≡◌, refl, ◌⊎◌, inl, inr, [], ◌∷◌, Option, none, some, arith, length, All,
  Bool-cases, leb,
}
use procpool.Delay.{Delayed, DelayQueue, heap_pop, next_available, try_pop}

module _ {ℓ} {T : Type ℓ} where
  -- No entry is due before `t`.
  abbrev pub NotBefore : ℕ → DelayQueue T → Type 0
  NotBefore t = All (λ d. t ≤ d.until)

  NotBefore-mono : (s t : ℕ) (q : DelayQueue T) → s ≤ t → NotBefore t q → NotBefore s q
  NotBefore-mono s t [] h n = tt
  NotBefore-mono s t (d ∷ q) h n = (omega arith, NotBefore-mono s t q h n.1)

  -- What `heap_pop` takes from a queue.
  pub record Earliest (q : DelayQueue T) (d : Delayed T) (rest : DelayQueue T) : Type ℓ where
    pub perm : Perm q (d ∷ rest)
    pub first : NotBefore d.until q
    pub smaller : length q ≡ suc (length rest)

  pub heap_pop-cases :
      (q : DelayQueue T)
      → ((q ≡ []) × (heap_pop q ≡ none))
        ⊎ ((d : Delayed T) × (rest : DelayQueue T) × (heap_pop q ≡ some (d, rest))
            × Earliest q d rest)
  unfolding heap_pop
  heap_pop-cases [] = inl (refl, refl)
  heap_pop-cases (d ∷ ds) = inr (go (heap_pop-cases ds))
    where
      go :
          ((ds ≡ []) × (heap_pop ds ≡ none))
            ⊎ ((e : Delayed T) × (rest : DelayQueue T) × (heap_pop ds ≡ some (e, rest))
                × Earliest ds e rest)
          → (e : Delayed T) × (rest : DelayQueue T) × (heap_pop (d ∷ ds) ≡ some (e, rest))
            × Earliest (d ∷ ds) e rest
      go (inl (none_left, p)) = (
        d,
        [],
        ground arith,
        rw none_left (record { perm = Perm.rfl; first = (omega arith, tt); smaller = refl }),
      )
      go (inr (e, rest, p, v)) = elim (Bool-cases (leb d.until e.until)) [
        | inl early ↦ (
          d,
          ds,
          ground arith,
          record {
            perm = Perm.rfl;
            first = (omega arith, NotBefore-mono d.until e.until ds (ground arith) v.first);
            smaller = refl;
          },
        )
        | inr late ↦ (
          e,
          d ∷ rest,
          ground arith,
          record {
            perm = Perm.trans (Perm.cons d v.perm) (Perm.swap e d rest);
            first = (ground arith, v.first);
            smaller = omega (arith, v.smaller);
          },
        )
      ]

  -- What `try_pop` at the time `now` says of the queue it was given.
  pub data Popped (now : ℕ) (q : DelayQueue T) : Option T × DelayQueue T → Type ℓ where
    waits : (q' : DelayQueue T) → q' ≡ q → NotBefore (suc now) q → Popped now q (none, q')
    gives :
        (d : Delayed T) (rest : DelayQueue T)
        → d.until ≤ now
        → Earliest q d rest
        → Popped now q (some d.value, rest)

  -- `try_pop` returns nothing and leaves the queue where no item is due; otherwise it takes out one
  -- item that is due, and no other item of the queue is due before that one.
  pub try_pop-Popped : (now : ℕ) (q : DelayQueue T) → Popped now q (try_pop now q)
  unfolding try_pop
  try_pop-Popped now q = elim (heap_pop-cases q) [
    | inl (e, p) ↦ rw (p, try_pop) (waits q refl (rw e tt))
    | inr (d, rest, p, v) ↦ elim (Bool-cases (leb d.until now)) [
      | inl due ↦ rw (p, due, try_pop) (gives d rest (ground arith) v)
      | inr early ↦
          rw (p, early, try_pop)
            (waits q refl (NotBefore-mono (suc now) d.until q (ground arith) v.first))
    ]
  ]

  -- No item of a queue is due before the instant that `next_available` returns.
  pub next_available-bound : (q : DelayQueue T) (t : ℕ) → next_available q ≡ some t → NotBefore t q
  unfolding next_available
  next_available-bound q t e = elim (heap_pop-cases q) [
    | inl (h, p) ↦ rw h tt
    | inr (d, rest, p, v) ↦ let same : t ≡ d.until = ground arith in rw same v.first
  ]

  pub length-try_pop :
      (now : ℕ) (q rest : DelayQueue T) (v : T)
      → try_pop now q ≡ (some v, rest)
      → length q ≡ suc (length rest)
  unfolding try_pop
  length-try_pop now q rest v e = elim (heap_pop-cases q) [
    | inl (empty, p) ↦ ground arith
    | inr (d, others, p, w) ↦ ground (arith, w.smaller)
  ]

  pub try_pop-none : (now : ℕ) (q rest : DelayQueue T) → try_pop now q ≡ (none, rest) → rest ≡ q
  unfolding try_pop
  try_pop-none now q rest e = elim (heap_pop-cases q) [
    | inl (empty, p) ↦ ground arith
    | inr (d, others, p, w) ↦ ground arith
  ]
