-- ===== src/Outcome/Iter/Exhausted.antt =====
-- src/hive/outcome/iter.rs: `next` after the inner iterator has ended.
use procpool.Common.{ℕ, zero, suc, ◌≡◌, refl, List, [], ◌∷◌, none, some, arith, replicate}
use procpool.Common.Maps.{get}
use procpool.Outcome.{missing}
use procpool.Outcome.Store.{Outcomes}
use procpool.Outcome.Iter.{OutcomeIterator, next, read_items}

module _ {ℓ} {I O E : Type ℓ} where
  abbrev exhausted : ℕ → List ℕ → Outcomes I O E → OutcomeIterator I O E
  exhausted i rest buf = record { inner = []; indices = i ∷ rest; buf = buf }

  next-exhausted :
      (i : ℕ) (rest : List ℕ) (buf : Outcomes I O E)
      → get i buf ≡ none
      → next (exhausted i rest buf) ≡ some (some (missing i), exhausted i rest buf)
  unfolding next
  next-exhausted i rest buf h = ground arith

  -- Once the inner iterator has ended and the buffer lacks the next index, the iterator never ends:
  -- a consumer that reads `n` items gets `n` copies of the same missing outcome, for every `n`.
  pub read_items-exhausted :
      (n i : ℕ) (rest : List ℕ) (buf : Outcomes I O E)
      → get i buf ≡ none
      → read_items n (exhausted i rest buf) ≡ some (replicate n (missing i))
  unfolding read_items
  read_items-exhausted zero i rest buf h = refl
  read_items-exhausted (suc n) i rest buf h =
      ground (arith, next-exhausted i rest buf h, read_items-exhausted n i rest buf h)
