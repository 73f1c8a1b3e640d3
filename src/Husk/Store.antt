-- ===== src/Husk/Store.antt =====
-- src/hive/husk.rs: a husk as a store of outcomes.
use procpool.Common.{refl}
use procpool.Outcome.Store.Deref.{DerefOutcomes, OwnedOutcomes}
use procpool.Shared.Teardown.{Husk}

module _ {ℓ} {I O E Q : Type ℓ} where
  instance abbrev pub husk_deref : DerefOutcomes (Husk I O E Q) I O E
  husk_deref = record {
    outcomes_deref = λ h. h.outcomes;
    outcomes_deref_mut = λ h m. record h { outcomes = m };
    read_written = λ h m. refl;
    write_twice = λ h m m'. refl;
  }

  instance abbrev pub husk_owned : OwnedOutcomes (Husk I O E Q) I O E
  husk_owned = record {
    deref = husk_deref;
    outcomes = λ h. h.outcomes;
    outcomes_ref = λ h. h.outcomes;
    owned = λ h. refl;
    borrowed = λ h. refl;
  }
