-- ===== src/Atomic/Cells.antt =====
-- src/atomic.rs: the trait `Atomic`, and `AtomicAny`, which implements it by a lock around the value.
use procpool.Common.{◌≡◌, refl, Bool, Option, none, some, Exec, done}
use procpool.Atomic

-- What a user of an atomic cell `A` for values of type `P` relies on: each operation is one step on
-- the value that the cell holds.
pub record IsAtomic {ℓ} (A P : Type ℓ) : Type ℓ where
  pub get : A → Exec A P
  pub set : P → A → Exec A P
  pub set_with : (P → Option P) → A → Exec A P
  pub into_inner : A → P
  pub from : P → A
  pub get_lem : (a : A) → get a ≡ done (into_inner a) a
  pub set_lem : (v : P) (a : A) → set v a ≡ done (into_inner a) (from v)
  pub set_with-some :
      (f : P → Option P) (a : A) (v : P)
      → f (into_inner a) ≡ some v
      → set_with f a ≡ done (into_inner a) (from v)
  pub set_with-none :
      (f : P → Option P) (a : A) → f (into_inner a) ≡ none → set_with f a ≡ done (into_inner a) a
  pub into_inner-from : (v : P) → into_inner (from v) ≡ v

-- The value behind an `RwLock`.
pub record AtomicAny {ℓ} (T : Type ℓ) : Type ℓ where
  pub value : T

module _ {ℓ} {T : Type ℓ} where
  unfoldable pub any_get : AtomicAny T → Exec (AtomicAny T) T
  any_get a = done a.value a

  unfoldable pub any_set : T → AtomicAny T → Exec (AtomicAny T) T
  any_set value a = let old_val = a.value in done old_val (record { value = value })

  -- The lock is held while `f` runs.
  unfoldable pub any_set_with : (T → Option T) → AtomicAny T → Exec (AtomicAny T) T
  any_set_with f a =
      let cur_val = a.value in
      elim (f cur_val) [
        | some new_val ↦ done cur_val (record { value = new_val })
        | none ↦ done cur_val a
      ]

  unfoldable pub any_into_inner : AtomicAny T → T
  any_into_inner a = a.value

  unfoldable pub any_from : T → AtomicAny T
  any_from value = record { value = value }

  unfoldable pub any_clone : AtomicAny T → AtomicAny T
  any_clone a = record { value = a.value }

  -- `PartialEq`, where the values are compared by `value_eq`.
  unfoldable pub any_eq : (T → T → Bool) → AtomicAny T → AtomicAny T → Bool
  any_eq value_eq a b = value_eq a.value b.value

  -- A lock around a value is an atomic cell.
  unfoldable pub any_atomic : IsAtomic (AtomicAny T) T
  unfolding any_get any_set any_set_with any_into_inner any_from
  any_atomic = record {
    get = any_get;
    set = any_set;
    set_with = any_set_with;
    into_inner = any_into_inner;
    from = any_from;
    get_lem = λ a. refl;
    set_lem = λ v a. refl;
    set_with-some = λ f a v e. rw (e, any_set_with) refl;
    set_with-none = λ f a e. rw (e, any_set_with) refl;
    into_inner-from = λ v. refl;
  }

  -- So is the cell of a primitive type, which is its value.
  prim_atomic : IsAtomic T T
  prim_atomic = record {
    get = Atomic.get;
    set = Atomic.set;
    set_with = Atomic.set_with;
    into_inner = λ cell. cell;
    from = λ v. v;
    get_lem = λ a. refl;
    set_lem = λ v a. refl;
    set_with-some = λ f a v e. rw (e, Atomic.set_with) refl;
    set_with-none = λ f a e. rw (e, Atomic.set_with) refl;
    into_inner-from = λ v. refl;
  }
