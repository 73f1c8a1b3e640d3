-- ===== src/Common/Maps.antt =====
-- `HashMap<usize, V>` as an association list. The order of iteration is that of the list.
use procpool.Common.Tests.{◌==◌, if◌then◌else◌}
use procpool.Common.Lists.{length}
use Prim.Native.Nat.{ℕ, ◌+◌}
use mathlib.Core.Path.{◌≡◌, refl}
use mathlib.Core.List.{List, [], ◌∷◌, ◌++◌, map}
use mathlib.Core.Option.{Option, none, some}
use native.Mathlib.Omega.{arith}

module _ {ℓ} {V : Type ℓ} where
  unfoldable pub get : ℕ → List (ℕ × V) → Option V
  get k [] = none
  get k ((j, v) ∷ m) = if j == k then some v else get k m

  unfoldable pub insert : ℕ → V → List (ℕ × V) → List (ℕ × V)
  insert k v [] = (k, v) ∷ []
  insert k v ((j, w) ∷ m) = if j == k then (k, v) ∷ m else (j, w) ∷ insert k v m

  -- The map without the key; `get` says what `HashMap::remove` returns.
  unfoldable pub remove : ℕ → List (ℕ × V) → List (ℕ × V)
  remove k [] = []
  remove k ((j, w) ∷ m) = if j == k then remove k m else (j, w) ∷ remove k m

  abbrev pub values : List (ℕ × V) → List V
  values = map (λ e. e.1)

  abbrev pub keys : List (ℕ × V) → List ℕ
  keys = map (λ e. e.0)

  pub get-insert :
      (k j : ℕ) (v : V) (m : List (ℕ × V))
      → get j (insert k v m) ≡ (if k == j then some v else get j m)
  unfolding get insert
  get-insert k j v [] = refl
  get-insert k j v ((i, w) ∷ m) = ground (arith, get-insert k j v m)

  pub get-remove :
      (k j : ℕ) (m : List (ℕ × V)) → get j (remove k m) ≡ (if k == j then none else get j m)
  unfolding get remove
  get-remove k j [] = ground arith
  get-remove k j ((i, w) ∷ m) = ground (arith, get-remove k j m)

  -- An entry for every key occurs once.
  abbrev pub Absent : ℕ → List (ℕ × V) → Type ℓ
  Absent k m = get k m ≡ none

  abbrev pub Unique : List (ℕ × V) → Type ℓ
  Unique [] = Unit
  Unique ((k, _) ∷ m) = Absent k m × Unique m

  pub insert-Unique : (k : ℕ) (v : V) (m : List (ℕ × V)) → Unique m → Unique (insert k v m)
  unfolding get insert
  insert-Unique k v [] u = ground arith
  insert-Unique k v ((j, w) ∷ m) u = ground (arith, insert-Unique k v m, get-insert k j v m)

  pub remove-Unique : (k : ℕ) (m : List (ℕ × V)) → Unique m → Unique (remove k m)
  unfolding get remove
  remove-Unique k [] u = u
  remove-Unique k ((j, w) ∷ m) u = ground (arith, remove-Unique k m, get-remove k j m)

  pub remove-Absent : (k : ℕ) (m : List (ℕ × V)) → Absent k m → remove k m ≡ m
  unfolding get remove
  remove-Absent k [] a = refl
  remove-Absent k ((j, w) ∷ m) a = ground (arith, remove-Absent k m)

  pub length-insert-Absent :
      (k : ℕ) (v : V) (m : List (ℕ × V)) → Absent k m → length (insert k v m) ≡ length m + 1
  unfolding get insert
  length-insert-Absent k v [] a = omega arith
  length-insert-Absent k v ((j, w) ∷ m) a = ground (arith, length-insert-Absent k v m)

  pub length-remove :
      (k : ℕ) (v : V) (m : List (ℕ × V))
      → Unique m
      → get k m ≡ some v
      → length (remove k m) + 1 ≡ length m
  unfolding get remove
  length-remove k v [] u e = ground arith
  length-remove k v ((j, w) ∷ m) u e = ground (arith, length-remove k v m u.1, remove-Absent k m)

  -- A key in the middle of a map with unique keys.
  pub get_middle :
      (k : ℕ) (v : V) (pre m : List (ℕ × V))
      → Unique (pre ++ (k, v) ∷ m)
      → get k (pre ++ (k, v) ∷ m) ≡ some v
  unfolding get
  get_middle k v [] m u = ground arith
  get_middle k v ((j, w) ∷ pre) m u = ground (arith, get_middle k v pre m u.1)

  pub remove_middle :
      (k : ℕ) (v : V) (pre m : List (ℕ × V))
      → Unique (pre ++ (k, v) ∷ m)
      → remove k (pre ++ (k, v) ∷ m) ≡ pre ++ m
  unfolding get remove
  remove_middle k v [] m u = ground (arith, remove-Absent k m u.0)
  remove_middle k v ((j, w) ∷ pre) m u =
      ground (arith, get_middle k v pre m u.1, remove_middle k v pre m u.1)
