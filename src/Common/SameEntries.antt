-- ===== src/Common/SameEntries.antt =====
-- Maps that hold the same entries, in orders of iteration that may differ: a fold over the entries whose
-- steps commute does not see the order.
use procpool.Common.Tests.{◌==◌, Bool-cases, ==_iff}
use procpool.Common.Maps.{get, Unique, get_middle, remove_middle, get-remove, remove-Unique}
use Prim.Native.Nat.{ℕ}
use mathlib.Core.Path.{◌≡◌, refl, sym, ap, ◌∙◌, subst}
use mathlib.Core.Logic.{◌≢◌, inl, inr}
use mathlib.Core.List.{List, [], ◌∷◌, ◌++◌}
use mathlib.Core.Option.{some}
use native.Mathlib.Omega.{arith}

module _ {ℓ} {V : Type ℓ} where
  abbrev pub SameEntries : List (ℕ × V) → List (ℕ × V) → Type ℓ
  SameEntries m m' = (k : ℕ) → get k m ≡ get k m'

  get-split :
      (k : ℕ) (v : V) (m : List (ℕ × V))
      → get k m ≡ some v
      → (pre : List (ℕ × V)) × (post : List (ℕ × V)) × (m ≡ pre ++ (k, v) ∷ post)
  unfolding get
  get-split k v [] e = absurd (cc)
  get-split k v ((j, w) ∷ m) e = elim (Bool-cases (j == k)) [
    | inl here ↦
        let same : w ≡ v = ground arith in let at : j ≡ k = (==_iff j k).0 here in ([], m, cc)
    | inr elsewhere ↦
        let (pre, post, split) = get-split k v m (ground arith) in
        ((j, w) ∷ pre, post, ap (λ n. (j, w) ∷ n) split)
  ]

  -- Without its first key the map has the entries of the others.
  rest-SameEntries :
      (k : ℕ) (v : V) (m pre post : List (ℕ × V))
      → Unique ((k, v) ∷ m)
      → Unique (pre ++ (k, v) ∷ post)
      → SameEntries ((k, v) ∷ m) (pre ++ (k, v) ∷ post)
      → SameEntries m (pre ++ post)
  unfolding get
  rest-SameEntries k v m pre post u u' same j = ground (
    arith,
    same j,
    u.0,
    get-remove k j (pre ++ (k, v) ∷ post),
    remove_middle k v pre post u',
    ==_iff k j,
  )

  module _ {κ} {B : Type κ} (f : ℕ → V → B → B) (b : B) where
    unfoldable pub fold : List (ℕ × V) → B
    fold [] = b
    fold ((k, v) ∷ m) = f k v (fold m)

    module _
        (commutes : (k j : ℕ) (v w : V) (c : B) → k ≢ j → f k v (f j w c) ≡ f j w (f k v c)) where
      fold-middle :
          (k : ℕ) (v : V) (pre post : List (ℕ × V))
          → Unique (pre ++ (k, v) ∷ post)
          → fold (pre ++ (k, v) ∷ post) ≡ f k v (fold (pre ++ post))
      unfolding fold
      fold-middle k v [] post u = refl
      fold-middle k v ((j, w) ∷ pre) post u =
          let apart : j ≢ k = λ same. ground (
            arith,
            u.0,
            get_middle k v pre post u.1,
            ap (λ i. get i (pre ++ (k, v) ∷ post)) same,
          ) in
          ap (f j w) (fold-middle k v pre post u.1) ∙ commutes j k w v (fold (pre ++ post)) apart

      -- Two maps with unique keys and the same entries.
      pub fold-SameEntries :
          (m m' : List (ℕ × V)) → Unique m → Unique m' → SameEntries m m' → fold m ≡ fold m'
      unfolding fold get
      fold-SameEntries [] [] u u' same = refl
      fold-SameEntries [] ((k, v) ∷ m') u u' same = absurd (ground (arith, same k, ==_iff k k))
      fold-SameEntries ((k, v) ∷ m) m' u u' same =
          let (pre, post, split) = get-split k v m' (sym (same k) ∙ ground (arith, ==_iff k k)) in
          let u'' = subst Unique split u' in
          let same' = rest-SameEntries k v m pre post u u'' (λ j. same j ∙ ap (get j) split) in
          ap (f k v) (
            fold-SameEntries m (pre ++ post) u.1
              (subst Unique (remove_middle k v pre post u'') (remove-Unique k _ u'')) same')
          ∙ sym (fold-middle k v pre post u'')
          ∙ ap fold (sym split)
