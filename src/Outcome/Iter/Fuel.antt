-- ===== src/Outcome/Iter/Fuel.antt =====
-- src/hive/outcome/iter.rs: the rounds of the loop of `next`.
use procpool.Common.{
  ℕ, zero, suc, ◌+◌, ◌*◌, ◌<◌, ◌≡◌, refl, List, [], ◌∷◌, Option, none, some, arith, length,
  Option-cases, inl, inr, ◌≤◌,
}
use procpool.Common.Maps.{get, remove, get-insert, get-remove}
use procpool.Outcome.{Outcome, index}
use procpool.Outcome.Store.{Outcomes}
use procpool.Outcome.Iter.{
  OutcomeIterator, Round, ended, yields, again, round, next_within, fuel, next,
}

module _ {ℓ} {I O E : Type ℓ} where
  abbrev hits : List ℕ → Outcomes I O E → ℕ
  hits [] buf = 0
  hits (i ∷ _) buf = elim (get i buf) [ none ↦ 0 | some _ ↦ 1 ]

  abbrev work : OutcomeIterator I O E → ℕ
  work it = 2 * length it.inner + hits it.indices it.buf

  hits-le : (is : List ℕ) (buf : Outcomes I O E) → hits is buf ≤ 1
  hits-le [] buf = omega arith
  hits-le (i ∷ is) buf = ground arith

  -- The buffer lacks the next index: the round pulls from the inner iterator.
  pulled :
      (os : List (Outcome I O E)) (i : ℕ) (is : List ℕ) (buf : Outcomes I O E)
      (it : OutcomeIterator I O E)
      → get i buf ≡ none
      → round (record { inner = os; indices = i ∷ is; buf = buf }) ≡ again it
      → work it < 2 * length os
  unfolding round
  pulled [] i is buf it absent e = ground arith
  pulled (o ∷ os) i is buf it absent e = ground (arith, get-insert (index o) i o buf)

  round-work :
      (os : List (Outcome I O E)) (is : List ℕ) (buf : Outcomes I O E) (it : OutcomeIterator I O E)
      → round (record { inner = os; indices = is; buf = buf }) ≡ again it
      → work it < 2 * length os + hits is buf
  unfolding round
  round-work os [] buf it e = absurd (cc)
  round-work os (i ∷ is) buf it e = elim (Option-cases (get i buf)) [
    | inl absent ↦ omega (arith, pulled os i is buf it absent e)
    | inr (o, held) ↦ ground (arith, get-insert (index o) i o (remove i buf), get-remove i i buf)
  ]

  next_within_total :
      (n : ℕ) (it : OutcomeIterator I O E)
      → work it < n
      → (r : Option (Outcome I O E) × OutcomeIterator I O E) × (next_within n it ≡ some r)
  unfolding next_within
  next_within_total zero it h = absurd (omega arith)
  next_within_total (suc n) it h = go (next_within_total n) (round it) refl
    where
      go :
          ((it' : OutcomeIterator I O E)
            → work it' < n
            → (r : Option (Outcome I O E) × OutcomeIterator I O E) × (next_within n it' ≡ some r))
          → (r : Round I O E) → round it ≡ r
          → (r : Option (Outcome I O E) × OutcomeIterator I O E) × (next_within (suc n) it ≡ some r)
      go rec ended e = ((none, it), rw (e, next_within))
      go rec (yields o it') e = ((some o, it'), rw (e, next_within))
      go rec (again it') e =
          let (r, p) = rec it' (omega (arith, round-work it.inner it.indices it.buf it' e)) in
          (r, rw (e, next_within) p)

  -- `next` returns on every iterator, also where the buffer or the indices are not those that
  -- `new` and `next` leave.
  pub next_total :
      (it : OutcomeIterator I O E)
      → (r : Option (Outcome I O E) × OutcomeIterator I O E) × (next it ≡ some r)
  unfolding next
  next_total it = next_within_total (fuel it) it (omega (arith, hits-le it.indices it.buf))
