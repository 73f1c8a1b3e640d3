-- ===== src/Atomic.antt =====
-- src/atomic.rs: the wrappers of the atomic integers, and `AtomicOption`. An atomic operation is one
-- step on the value; the orderings are not modelled. Integers wrap at their width.
pub mod Cells
pub mod Laws
use procpool.Common.{
  ℕ, ◌+◌, ◌-◌, ◌%◌, ◌^◌, Option, none, some, ltb, if◌then◌else◌, Result, ok, err, Exec, done,
}
use mathlib.Core.Option

-- `Atomic`: `get`, `set` and `set_with` on a cell with a value of type `P`
module _ {ℓ} {P : Type ℓ} where
  abbrev pub get : P → Exec P P
  get cell = done cell cell

  abbrev pub set : P → P → Exec P P
  set value cell = done cell value

  abbrev pub set_with : (P → Option P) → P → Exec P P
  set_with f cell = elim (f cell) [ some new_val ↦ done cell new_val | none ↦ done cell cell ]

-- `AtomicInt` for an unsigned integer of `w` bits: `fetch_add` and `fetch_sub`
abbrev pub add : ℕ → ℕ → ℕ → Exec ℕ ℕ
add w rhs cell = done cell ((cell + rhs) % 2 ^ w)

abbrev pub sub : ℕ → ℕ → ℕ → Exec ℕ ℕ
sub w rhs cell = done cell ((cell + 2 ^ w - rhs) % 2 ^ w)

pub data AtomicOption {ℓ} (P : Type ℓ) : Type ℓ where
  unsync : Option P → AtomicOption P
  sync : Option P → AtomicOption P

pub data MutError : Type 0 where
  unsync unset : MutError

module _ {ℓ} {P : Type ℓ} where
  -- `Default`
  unfoldable pub default_option : AtomicOption P
  default_option = AtomicOption.unsync none

  unfoldable pub get_option : AtomicOption P → Option P
  get_option (AtomicOption.unsync opt) = opt
  get_option (AtomicOption.sync opt) = opt

  unfoldable pub get_or_default : P → AtomicOption P → P
  unfolding get_option
  get_or_default default a = Option.get_or (get_option a) default

  -- The previous value, and the cell afterwards.
  unfoldable pub set_option : Option P → AtomicOption P → Option P × AtomicOption P
  set_option value (AtomicOption.sync opt) = (opt, AtomicOption.sync value)
  set_option value (AtomicOption.unsync opt) = (opt, AtomicOption.unsync value)

  unfoldable pub into_sync : AtomicOption P → AtomicOption P
  into_sync (AtomicOption.unsync opt) = AtomicOption.sync opt
  into_sync (AtomicOption.sync opt) = AtomicOption.sync opt

  unfoldable pub into_sync_default : P → AtomicOption P → AtomicOption P
  into_sync_default default (AtomicOption.unsync none) = AtomicOption.sync (some default)
  into_sync_default default (AtomicOption.sync none) = AtomicOption.sync (some default)
  into_sync_default default (AtomicOption.unsync (some v)) = AtomicOption.sync (some v)
  into_sync_default default (AtomicOption.sync (some v)) = AtomicOption.sync (some v)

  unfoldable pub into_unsync : AtomicOption P → AtomicOption P
  into_unsync (AtomicOption.sync opt) = AtomicOption.unsync opt
  into_unsync (AtomicOption.unsync opt) = AtomicOption.unsync opt

  -- A call on the atomic of a set `sync` cell; the other cells are errors, and stay.
  unfoldable pub on_atomic :
      (P → Exec P P) → AtomicOption P → Exec (AtomicOption P) (Result P MutError)
  on_atomic m (AtomicOption.unsync opt) = done (err MutError.unsync) (AtomicOption.unsync opt)
  on_atomic m (AtomicOption.sync none) = done (err unset) (AtomicOption.sync none)
  on_atomic m (AtomicOption.sync (some v)) = elim (m v) [
    | done prev v' ↦ done (ok prev) (AtomicOption.sync (some v'))
    | Exec.panicked v' ↦ Exec.panicked (AtomicOption.sync (some v'))
  ]

  unfoldable pub try_update_with :
      (P → Option P) → AtomicOption P → Exec (AtomicOption P) (Result P MutError)
  unfolding on_atomic
  try_update_with f = on_atomic (set_with f)

unfoldable pub add_option : ℕ → ℕ → AtomicOption ℕ → Exec (AtomicOption ℕ) (Result ℕ MutError)
unfolding on_atomic
add_option w rhs = on_atomic (add w rhs)

unfoldable pub set_max : ℕ → AtomicOption ℕ → Exec (AtomicOption ℕ) (Result ℕ MutError)
unfolding on_atomic
set_max rhs = on_atomic (set_with (λ current. if ltb current rhs then some rhs else none))
