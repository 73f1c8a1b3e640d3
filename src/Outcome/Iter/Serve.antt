-- ===== src/Outcome/Iter/Serve.antt =====
-- src/hive/outcome/iter.rs: how `next` serves an index, from the buffer or from the inner iterator.
use procpool.Common.{
  ℕ, zero, suc, ◌<◌, ◌≡◌, ◌∙◌, inl, inr, List, [], ◌∷◌, Option, none, some, arith, length, ◌==◌,
  if◌then◌else◌, true, false, contains, Bool-cases, Option-cases, ==_iff,
}
use procpool.Common.Maps.{get, insert, remove, get-insert, get-remove}
use procpool.Outcome.{Outcome, index}
use procpool.Outcome.Store.{Outcomes}
use procpool.Outcome.Iter.{OutcomeIterator, next_within}

abbrev pub Nodup : List ℕ → Type 0
Nodup [] = Unit
Nodup (i ∷ is) = (contains is i ≡ false) × Nodup is

module _ {ℓ} {I O E : Type ℓ} where
  -- The first outcome with an index.
  unfoldable pub find : ℕ → List (Outcome I O E) → Option (Outcome I O E)
  find i [] = none
  find i (o ∷ os) = if index o == i then some o else find i os

  -- No two outcomes have one index.
  abbrev pub Distinct : List (Outcome I O E) → Type ℓ
  Distinct [] = Unit
  Distinct (o ∷ os) = (find (index o) os ≡ none) × Distinct os

  -- What the iterator has for an index, filed or still to come.
  unfoldable pub pending : ℕ → List (Outcome I O E) → Outcomes I O E → Option (Outcome I O E)
  unfolding find
  pending i os buf = elim (get i buf) [ none ↦ find i os | some o ↦ some o ]

  pub record Inv (os : List (Outcome I O E)) (buf : Outcomes I O E) : Type ℓ where
    pub filed : (k : ℕ) (o : Outcome I O E) → get k buf ≡ some o → index o ≡ k
    pub apart : Distinct os
    pub fresh : (k : ℕ) (o : Outcome I O E) → get k buf ≡ some o → find k os ≡ none

  module _ {os : List (Outcome I O E)} {buf : Outcomes I O E} (inv : Inv os buf) where
    remove-Inv : (i : ℕ) → Inv os (remove i buf)
    remove-Inv i = record {
      filed = λ k o e. inv.filed k o (ground (arith, get-remove i k buf));
      apart = inv.apart;
      fresh = λ k o e. inv.fresh k o (ground (arith, get-remove i k buf));
    }

  module _ {o : Outcome I O E} {os : List (Outcome I O E)} {buf : Outcomes I O E}
      (inv : Inv (o ∷ os) buf) where
    drop-Inv : Inv os buf
    unfolding find
    drop-Inv = record {
      filed = inv.filed;
      apart = inv.apart.1;
      fresh = λ k x e. ground (arith, inv.fresh k x e);
    }

    file-Inv : Inv os (insert (index o) o buf)
    unfolding find
    file-Inv = record {
      filed = λ k x e. ground (arith, get-insert (index o) k o buf, inv.filed k x);
      apart = inv.apart.1;
      fresh = λ k x e. ground (arith, get-insert (index o) k o buf, inv.fresh k x, inv.apart.0);
    }

    pending-file : (j : ℕ) → pending j os (insert (index o) o buf) ≡ pending j (o ∷ os) buf
    unfolding pending find
    pending-file j = elim (Option-cases (get j buf)) [
      | inl e ↦ ground (arith, get-insert (index o) j o buf)
      | inr (x, e) ↦ ground (arith, get-insert (index o) j o buf, inv.fresh j x e)
    ]

    pending-drop : (j : ℕ) → (index o == j) ≡ false → pending j os buf ≡ pending j (o ∷ os) buf
    unfolding pending find
    pending-drop j h = ground arith

  abbrev pub iter_of : List (Outcome I O E) → List ℕ → Outcomes I O E → OutcomeIterator I O E
  iter_of os is buf = record { inner = os; indices = is; buf = buf }

  -- `next` yields `o`, and what is pending under the other indices stays.
  pub record Served (n i : ℕ) (os : List (Outcome I O E)) (is : List ℕ) (buf : Outcomes I O E)
      (o : Outcome I O E) : Type ℓ where
    pub left : List (Outcome I O E)
    pub held : Outcomes I O E
    pub served : next_within n (iter_of os (i ∷ is) buf) ≡ some (some o, iter_of left is held)
    pub inv : Inv left held
    pub kept : (j : ℕ) → contains is j ≡ true → pending j left held ≡ pending j os buf

  -- An outcome in the buffer is served in one round.
  serve_held :
      (n i : ℕ) (os : List (Outcome I O E)) (is : List ℕ) (buf : Outcomes I O E) (o : Outcome I O E)
      → Inv os buf
      → contains is i ≡ false
      → get i buf ≡ some o
      → Served (suc n) i os is buf o
  unfolding next_within pending
  serve_held n i os is buf o inv once e = record {
    left = os;
    held = remove i buf;
    served = ground (arith, inv.filed i o e);
    inv = remove-Inv inv i;
    kept = λ j h. ground (arith, get-remove i j buf, ==_iff i j);
  }

  pub serve :
      (n i : ℕ) (os : List (Outcome I O E)) (is : List ℕ) (buf : Outcomes I O E) (o : Outcome I O E)
      → length os < n
      → Inv os buf
      → contains is i ≡ false
      → pending i os buf ≡ some o
      → Served n i os is buf o
  unfolding next_within pending find
  serve zero i os is buf o fits inv once p = absurd (omega arith)
  serve (suc n) i [] is buf o fits inv once p = serve_held n i [] is buf o inv once (ground arith)
  serve (suc n) i (x ∷ os) is buf o fits inv once p = elim (Option-cases (get i buf)) [
    | inr (y, e) ↦ serve_held n i (x ∷ os) is buf o inv once (ground arith)
    | inl e ↦ elim (Bool-cases (index x == i)) [
      | inl here ↦ record {
        left = os;
        held = buf;
        served = ground arith;
        inv = drop-Inv inv;
        kept = λ j h. pending-drop inv j (ground (arith, ==_iff i j));
      }
      | inr elsewhere ↦ elim (Bool-cases (contains (i ∷ is) (index x))) [
        | inl wanted ↦
            let s : Served n i os is (insert (index x) x buf) o =
              serve n i os is (insert (index x) x buf) o (omega arith) (file-Inv inv) once
                (pending-file inv i ∙ p) in
            record {
              left = s.left;
              held = s.held;
              served = ground (arith, s.served);
              inv = s.inv;
              kept = λ j h. s.kept j h ∙ pending-file inv j;
            }
        | inr other ↦
            let s : Served n i os is buf o =
              serve n i os is buf o (omega arith) (drop-Inv inv) once
                (pending-drop inv i elsewhere ∙ p) in
            record {
              left = s.left;
              held = s.held;
              served = ground (arith, s.served);
              inv = s.inv;
              kept = λ j h. s.kept j h ∙ pending-drop inv j (ground (arith, ==_iff (index x) j));
            }
      ]
    ]
  ]
