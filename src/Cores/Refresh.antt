-- ===== src/Cores/Refresh.antt =====
-- src/hive/cores.rs, `refresh`: the known cores and those that the system reports.
use procpool.Common.{
  ℕ, ◌≡◌, refl, ap, List, [], ◌∷◌, ◌++◌, map, length, Option, Bool, false, not, ◌&&◌, ◌==◌, arith,
  filter, contains, inl, inr, Bool-cases,
}
use mathlib.Core.Option
use procpool.Cores.{Core, erase, mark, refresh, new_core}

-- Whether a core with this id is known.
abbrev pub known : List Core → ℕ → Bool
known cores i = contains (map (λ c. c.id) cores) i

-- No id is known twice.
abbrev pub Distinct : List Core → Type 0
Distinct [] = Unit
Distinct (c ∷ cs) = (known cs c.id ≡ false) × Distinct cs

-- The known cores, each available if its id is reported.
abbrev pub marked : List ℕ → List Core → List Core
marked ids [] = []
marked ids (c ∷ cs) = record c { available = contains ids c.id } ∷ marked ids cs

-- The reported ids that are not known.
abbrev pub unknown : List Core → List ℕ → List ℕ
unknown cores ids = filter (λ i. not (known cores i)) ids

contains-erase :
    (j : ℕ) (ids : List ℕ) (i : ℕ) → contains (erase j ids) i ≡ (contains ids i && not (i == j))
unfolding contains erase
contains-erase j [] i = refl
contains-erase j (k ∷ ids) i = ground (arith, contains-erase j ids i)

marked-erase :
    (j : ℕ) (ids : List ℕ) (cs : List Core)
    → known cs j ≡ false
    → marked (erase j ids) cs ≡ marked ids cs
unfolding contains
marked-erase j ids [] h = refl
marked-erase j ids (c ∷ cs) h = ground (arith, contains-erase j ids c.id, marked-erase j ids cs)

unknown-erase :
    (c : Core) (cs : List Core) (ids : List ℕ) → unknown cs (erase c.id ids) ≡ unknown (c ∷ cs) ids
unfolding erase filter contains
unknown-erase c cs [] = refl
unknown-erase c cs (i ∷ ids) = ground (arith, unknown-erase c cs ids)

erase_absent : (j : ℕ) (ids : List ℕ) → contains ids j ≡ false → erase j ids ≡ ids
unfolding erase contains
erase_absent j [] h = refl
erase_absent j (i ∷ ids) h = ground (arith, erase_absent j ids)

unknown-nil : (ids : List ℕ) → unknown [] ids ≡ ids
unfolding filter contains
unknown-nil [] = refl
unknown-nil (i ∷ ids) = ap (◌∷◌ i) (unknown-nil ids)

mark-marked :
    (cores : List Core) (ids : List ℕ)
    → Distinct cores
    → mark cores ids ≡ (marked ids cores, unknown cores ids)
unfolding mark
mark-marked [] ids d = rw (unknown-nil ids) refl
mark-marked (c ∷ cs) ids d = elim (Bool-cases (contains ids c.id)) [
  | inl e ↦ ground (
    arith,
    e,
    mark-marked cs (erase c.id ids) d.1,
    marked-erase c.id ids cs d.0,
    unknown-erase c cs ids,
  )
  | inr e ↦
      ground (arith, e, mark-marked cs ids d.1, unknown-erase c cs ids, erase_absent c.id ids e)
]

-- Where no id is known twice, `refresh` keeps each known core at its position and makes it available
-- exactly if its id is reported, adds a core at the end for each reported id that was not known, and
-- returns their number.
pub refresh-marked :
    (core_ids : Option (List ℕ)) (cores : List Core)
    → Distinct cores
    → refresh core_ids cores ≡ (
      length (unknown cores (Option.get_or core_ids [])),
      marked (Option.get_or core_ids []) cores
          ++ map new_core (unknown cores (Option.get_or core_ids [])),
    )
unfolding refresh
refresh-marked core_ids cores d = ground (arith, mark-marked cores (Option.get_or core_ids []) d)
