-- ===== src/Bee/Panics.antt =====
-- src/panic.rs and src/boxed.rs: the other operations on a caught panic. A payload is the id of its
-- type, which is all that is compared of it.
use Prim.Native.Nat.{Ordering}
use Prim.Native.String.{String, compare}
use text.Mathlib.TextPositions.{compare_refl}
use procpool.Common.{
  ◌≡◌, refl, ◌==◌, ◌&&◌, Bool, true, false, Option, none, some, Result, Exec, panic, ==_iff,
}
use procpool.Bee.{Panic, Unwind, try_call}

-- `BoxedFnOnce::call_box` of a closure calls it; the closure is what its call does.
unfoldable pub call_box {ℓ} : {A : Type ℓ} → Unwind A → Unwind A
call_box f = f

unfoldable pub try_call_boxed {ℓ} : {A : Type ℓ} → Option String → Unwind A → Result A Panic
unfolding call_box
try_call_boxed detail f = try_call detail (call_box f)

-- The thread unwinds again.
unfoldable pub resume_panic {ℓ κ} : {S : Type ℓ} {A : Type κ} → Panic → S → Exec S A
resume_panic p = panic

abbrev pub detail_eq : Option String → Option String → Bool
detail_eq none none = true
detail_eq (some a) (some b) = elim (compare a b) [ Ordering.eq ↦ true | _ ↦ false ]
detail_eq none (some b) = false
detail_eq (some a) none = false

-- `PartialEq::eq`
unfoldable pub panic_eq : Panic → Panic → Bool
panic_eq a b = (a.payload == b.payload) && detail_eq a.detail b.detail

detail_eq_self : (d : Option String) → detail_eq d d ≡ true
detail_eq_self none = refl
detail_eq_self (some a) = rw (compare_refl a, detail_eq) refl

-- A panic equals itself.
panic_eq_self : (p : Panic) → panic_eq p p ≡ true
unfolding panic_eq
panic_eq_self p = rw ((==_iff p.payload p.payload).1 refl, detail_eq_self p.detail) refl
