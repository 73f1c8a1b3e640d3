-- ===== src/Common/Calls.antt =====
-- Calls that change a state and may panic, and Rust's `Result`.
use mathlib.Core.Option.{Option, none, some}
use mathlib.Core.Bool.{Bool, true, false}
use mathlib.Core.List.{List, [], ◌∷◌}

pub data Result {ℓ κ} (A : Type ℓ) (E : Type κ) : Type (ℓ ⊔ κ) where
  ok : A → Result A E
  err : E → Result A E

-- A call returns a value or unwinds; what it did to the state stays done either way.
pub data Exec {ℓ κ} (S : Type ℓ) (A : Type κ) : Type (ℓ ⊔ κ) where
  done : A → S → Exec S A
  panicked : S → Exec S A

module _ {ℓ} {S : Type ℓ} where
  infixl 5 ◌>>=◌ ◌>>◌
  abbrev pub ◌>>=◌ {κ μ} :
      {A : Type κ} {B : Type μ} → (S → Exec S A) → (A → S → Exec S B) → S → Exec S B
  ◌>>=◌ m f s = elim (m s) [ done a t ↦ f a t | panicked t ↦ panicked t ]

  abbrev pub ◌>>◌ {μ} : {B : Type μ} → (S → Exec S (Unit {0})) → (S → Exec S B) → S → Exec S B
  m >> k = m >>= λ _. k

  abbrev pub pure {κ} : {A : Type κ} → A → S → Exec S A
  pure a s = done a s

  abbrev pub panic {κ} : {A : Type κ} → S → Exec S A
  panic s = panicked s

  abbrev pub read {κ} : {A : Type κ} → (S → A) → S → Exec S A
  read f s = done (f s) s

  abbrev pub modify : (S → S) → S → Exec S (Unit {0})
  modify f s = done tt (f s)

  -- `Option::unwrap` and `Option::expect`
  abbrev pub unwrap_option {κ} : {A : Type κ} → Option A → S → Exec S A
  unwrap_option (some a) s = done a s
  unwrap_option none s = panicked s

  -- `Result::unwrap` and `Result::expect`
  abbrev pub unwrap_result {κ μ} : {A : Type κ} {E : Type μ} → Result A E → S → Exec S A
  unwrap_result (ok a) s = done a s
  unwrap_result (err e) s = panicked s

  abbrev pub assert : Bool → S → Exec S (Unit {0})
  assert true s = done tt s
  assert false s = panicked s

  -- A call on a part of the state.
  abbrev pub zoom {κ μ} :
      {T : Type κ} {A : Type μ} → (S → T) → (S → T → S) → (T → Exec T A) → S → Exec S A
  zoom get put m s = elim (m (get s)) [
    | done a t ↦ done a (put s t)
    | panicked t ↦ panicked (put s t)
  ]

  -- `iter.map(f).collect()` for a call `f` that may panic
  unfoldable pub collect {κ μ} :
      {A : Type κ} {B : Type μ} → (A → S → Exec S B) → List A → S → Exec S (List B)
  collect f [] = pure []
  collect f (x ∷ xs) = do y ← f x; ys ← collect f xs; pure (y ∷ ys)

module _ {ℓ κ} {S : Type ℓ} {A : Type κ} where
  abbrev pub state_after : Exec S A → S
  state_after (done _ s) = s
  state_after (panicked s) = s

  abbrev pub IsDone : Exec S A → Type 0
  IsDone (done _ _) = Unit
  IsDone (panicked _) = ⊥
