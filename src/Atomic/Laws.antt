-- ===== src/Atomic/Laws.antt =====
-- src/atomic.rs: `AtomicOption` on both of its variants.
use procpool.Common.{◌≡◌, refl, Option, none, some, Exec, done, ap, ◌∙◌, ◌>>=◌, pure, arith}
use procpool.Atomic.{
  AtomicOption, get_option, get_or_default, set_option, into_sync, into_sync_default, into_unsync,
}
use procpool.Atomic.Cells.{IsAtomic, AtomicAny, any_atomic, any_into_inner, any_from}

module _ {ℓ} {P : Type ℓ} where
  -- `set` returns what `get` would have returned, and `get` then returns what was set.
  set_option-get :
      (value : Option P) (a : AtomicOption P)
      → ((set_option value a).0 ≡ get_option a) × (get_option (set_option value a).1 ≡ value)
  unfolding set_option get_option
  set_option-get value (AtomicOption.unsync opt) = (refl, refl)
  set_option-get value (AtomicOption.sync opt) = (refl, refl)

  -- The conversions keep what `get` returns; the one with a default gives an unset value the default.
  conversions-get :
      (default : P) (a : AtomicOption P)
      → (get_option (into_sync a) ≡ get_option a)
        × (get_option (into_unsync (into_sync a)) ≡ get_option a)
        × (get_option (into_sync_default default a) ≡ some (get_or_default default a))
  unfolding get_option get_or_default into_sync into_unsync into_sync_default
  conversions-get default (AtomicOption.unsync none) = (refl, refl, refl)
  conversions-get default (AtomicOption.unsync (some v)) = (refl, refl, refl)
  conversions-get default (AtomicOption.sync none) = (refl, refl, refl)
  conversions-get default (AtomicOption.sync (some v)) = (refl, refl, refl)

module _ {ℓ} {A P : Type ℓ} (cells : IsAtomic A P) where
  -- What `get` returns before, what `set` returns, and what `get` returns after.
  abbrev around_set : P → A → Exec A (P × P × P)
  around_set v = do
    old ← cells.get
    previous ← cells.set v
    new ← cells.get
    let seen : P × P × P = (old, previous, new)
    pure seen

  -- Of a cell of any kind, `set` returns what `get` returned before, and `get` then what was set.
  get-set :
      (v : P) (a : A)
      → around_set v a ≡ done (cells.into_inner a, cells.into_inner a, v) (cells.from v)
  get-set v a = ground (
    arith,
    cells.get_lem a,
    cells.set_lem v a,
    cells.get_lem (cells.from v),
    cells.into_inner-from v,
  )

  -- Of a cell of any kind, a second `set_with` sees what the first one has left.
  set_with-twice :
      (f g : P → Option P) (a : A) (v w : P)
      → f (cells.into_inner a) ≡ some v
      → g v ≡ some w
      → (do _ ← cells.set_with f; cells.set_with g) a ≡ done v (cells.from w)
  set_with-twice f g a v w e e' =
      let back = cells.into_inner-from v in
      let sees : g (cells.into_inner (cells.from v)) ≡ some w = ap g back ∙ e' in
      ground (arith, back, cells.set_with-some f a v e, cells.set_with-some g (cells.from v) w sees)

-- A lock around a value is such a cell.
any_get-set {ℓ} :
    {T : Type ℓ} (v : T) (a : AtomicAny T)
    → around_set any_atomic v a ≡ done (a.value, a.value, v) (record { value = v })
unfolding any_atomic any_into_inner any_from
any_get-set v a = get-set any_atomic v a
