-- ===== src/Cores.antt =====
-- src/hive/cores.rs: the sequence of CPU cores and the sets of core indices. Core ids are numbers;
-- what the operating system reports, and whether it pins a thread, are arguments.
pub mod Laws
pub mod Refresh
use procpool.Common.{
  ℕ, zero, suc, List, [], ◌∷◌, ◌++◌, map, Option, none, some, Bool, true, false, not, ◌&&◌, ◌==◌,
  if◌then◌else◌, length, get_elem?, filter, contains, range, ltb,
}
use mathlib.Core.Option

pub record Core : Type 0 where
  pub id : ℕ
  pub available : Bool

unfoldable pub new_core : ℕ → Core
new_core id = record { id = id; available = true }

-- `HashSet::remove`
unfoldable pub erase : ℕ → List ℕ → List ℕ
erase i [] = []
erase i (j ∷ js) = if j == i then erase i js else j ∷ erase i js

-- The loop over the known cores: their new flags, and the reported ids that are left.
unfoldable pub mark : List Core → List ℕ → List Core × List ℕ
unfolding contains erase
mark [] new_ids = ([], new_ids)
mark (c ∷ cs) new_ids =
    if contains new_ids c.id
    then (let (marked, left) = mark cs (erase c.id new_ids) in
        (record c { available = true } ∷ marked, left))
    else (let (marked, left) = mark cs new_ids in (record c { available = false } ∷ marked, left))

-- `refresh`, given the ids that `get_core_ids` reports, without repetitions: the number of new cores,
-- and the new sequence.
unfoldable pub refresh : Option (List ℕ) → List Core → ℕ × List Core
unfolding mark new_core
refresh core_ids cores =
    let (marked, left) = mark cores (Option.get_or core_ids []) in
    (length left, marked ++ map new_core left)

-- `set_for_current` is an argument.
unfoldable pub try_pin_current : (ℕ → Bool) → Core → Bool
try_pin_current set_for_current c = c.available && set_for_current c.id

abbrev pub Cores : Type 0
Cores = List ℕ

unfoldable pub empty : Cores
empty = []

-- `from_iter` and `From`
unfoldable pub from_iter : List ℕ → Cores
from_iter indices = indices

-- `num_cpus` is the number that `num_cpus::get` returns.
unfoldable pub first : ℕ → ℕ → Cores
first num_cpus n = range 0 (if ltb n num_cpus then n else num_cpus)

unfoldable pub all : ℕ → Cores
all num_cpus = range 0 num_cpus

unfoldable pub append : ℕ → Cores → Bool × Cores
unfolding contains
append index cores =
    if not (contains cores index) then (true, cores ++ index ∷ []) else (false, cores)

-- The loop of `union`: how many were new, and the sequence.
unfoldable pub union : Cores → Cores → ℕ × Cores
unfolding append
union [] cores = (0, cores)
union (i ∷ other) cores =
    let (added, cores') = append i cores in
    let (n, cores'') = union other cores' in (if added then (suc n, cores'') else (n, cores''))

unfoldable pub get : List Core → ℕ → Cores → Option Core
get known index cores = elim (get_elem? cores index) [
  | none ↦ none
  | some i ↦ elim (get_elem? known i) [
    | none ↦ none
    | some c ↦ if c.available then some c else none
  ]
]

-- The pairs that `iter` yields, of the known cores.
unfoldable pub iter : List Core → Cores → List (ℕ × Option Core)
iter known cores =
    map
      (λ i. (
        i,
        elim (get_elem? known i) [ none ↦ none | some c ↦ if c.available then some c else none ],
      ))
      cores

unfoldable pub bitor_assign : Cores → Cores → Cores
unfolding filter contains
bitor_assign rhs cores = cores ++ filter (λ i. not (contains cores i)) rhs

unfoldable pub sub_assign : Cores → Cores → Cores
unfolding filter contains
sub_assign rhs cores = filter (λ i. not (contains rhs i)) cores

-- `|` and `-`, on values
unfoldable pub bitor : Cores → Cores → Cores
unfolding bitor_assign
bitor cores rhs = bitor_assign rhs cores

unfoldable pub sub : Cores → Cores → Cores
unfolding sub_assign
sub cores rhs = sub_assign rhs cores
