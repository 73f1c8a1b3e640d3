-- ===== src/Hive/Blocking.antt =====
-- src/hive/hive.rs: the operations that make a channel, submit for it and read it: `apply`, `swarm`,
-- `map`, `scan` and their unordered and fallible forms. `tx` is the new channel, and `arrived` is what
-- its receiver yields until the last sender is gone, of the state that the submission has left.
pub mod Laws
use procpool.Common.{ℕ, List, [], ◌∷◌, length, take, some, Result, ok, err, ◌>>=◌, pure, read}
use procpool.Hive.Submit.{send_one, send_batch, swarm_send, map_send, scan_into, try_scan_into}
use procpool.Outcome.{Outcome, missing}
use procpool.Outcome.Batch.{batch_from}
use procpool.Outcome.Iter.{OutcomeIterator}
use procpool.Outcome.Iter
use procpool.Outcome.Store.{Outcomes}
use procpool.Shared.{Shared, Call}

module _ {ℓ} {I O E Q : Type ℓ} (tx : ℕ) (arrived : Shared I O E Q → List (Outcome I O E)) where
  -- `rx.recv().unwrap_or_else(|_| Outcome::Missing { index })`
  abbrev pub first_or_missing : ℕ → List (Outcome I O E) → Outcome I O E
  first_or_missing index [] = missing index
  first_or_missing index (o ∷ _) = o

  unfoldable pub apply : I → Call I O E Q (Outcome I O E)
  unfolding send_one
  apply input = do
    index ← send_one input (some tx)
    os ← read arrived
    pure (first_or_missing index os)

  unfoldable pub swarm : List I → Call I O E Q (OutcomeIterator I O E)
  unfolding send_batch Iter.new
  swarm batch = do indices ← swarm_send batch tx; os ← read arrived; pure (Iter.new os indices)

  unfoldable pub swarm_unordered : List I → Call I O E Q (List (Outcome I O E))
  unfolding send_batch
  swarm_unordered batch = do
    indices ← swarm_send batch tx
    os ← read arrived
    pure (take (length indices) os)

  unfoldable pub map : List I → Call I O E Q (OutcomeIterator I O E)
  unfolding map_send Iter.new
  map inputs = do indices ← map_send inputs tx; os ← read arrived; pure (Iter.new os indices)

  unfoldable pub map_unordered : List I → Call I O E Q (List (Outcome I O E))
  unfolding map_send
  map_unordered inputs = do
    indices ← map_send inputs tx
    os ← read arrived
    pure (take (length indices) os)

  module _ {κ} {St T : Type κ} where
    unfoldable pub scan : List T → St → (St → T → St × I) → Call I O E Q (Outcomes I O E × St)
    unfolding scan_into batch_from
    scan items init f = do
      (indices, fold_value) ← scan_into (some tx) items init f
      os ← read arrived
      pure (batch_from (take (length indices) os), fold_value)

    unfoldable pub try_scan {μ} :
        {X : Type μ}
        → List T
        → St
        → (St → T → St × Result I X)
        → Call I O E Q (Result (Outcomes I O E × St) X)
    unfolding try_scan_into batch_from
    try_scan items init f = do
      scanned ← try_scan_into (some tx) items init f
      os ← read arrived
      elim scanned [
        | err e ↦ pure (err e)
        | ok (indices, fold_value) ↦ pure (ok (batch_from (take (length indices) os), fold_value))
      ]
