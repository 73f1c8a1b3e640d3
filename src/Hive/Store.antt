-- ===== src/Hive/Store.antt =====
-- src/hive/hive.rs: a hive as a store of outcomes. The reference is the guard of the lock on the map,
-- which is held for one operation.
use procpool.Common.{refl}
use procpool.Outcome.Store.Deref.{DerefOutcomes}
use procpool.Shared.{Shared}

module _ {ℓ} {I O E Q : Type ℓ} where
  instance abbrev pub hive_deref : DerefOutcomes (Shared I O E Q) I O E
  hive_deref = record {
    outcomes_deref = λ s. s.outcomes;
    outcomes_deref_mut = λ s m. record s { outcomes = m };
    read_written = λ s m. refl;
    write_twice = λ s m m'. refl;
  }
