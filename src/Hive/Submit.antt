-- ===== src/Hive/Submit.antt =====
-- src/hive/hive.rs: the operations that submit tasks. A channel for the outcomes is given by its
-- number, also where the operation makes it (`apply`, `swarm`, `map`, `scan`).
pub mod Batch
pub mod Each
pub mod Poisoned
pub mod Resume
use procpool.Common.{
  ℕ, List, [], ◌∷◌, ◌++◌, length, Option, none, some, Bool, true, false, if◌then◌else◌, Result, ok,
  err, Exec, done, panicked, ◌>>=◌, ◌>>◌, pure, read, modify, collect,
}
use procpool.Outcome.{Outcome}
use procpool.Outcome.Iter.{OutcomeIterator}
use procpool.Outcome.Iter
use procpool.Outcome.Store.{unprocessed_value}
use procpool.Shared.{Task, Shared, Call, set_suspended}
use procpool.Shared.Tasks.{
  prepare_task, reserve, for_batch, into_unprocessed_try_send, store_rest, add_outcome,
  as_unprocessed,
}
use procpool.Shared.Teardown.{take_unprocessed}

module _ {ℓ} {I O E Q : Type ℓ} where
  -- `task_tx.send`: the receiver lives as long as the shared state.
  unfoldable pub send_task : Task I → Call I O E Q ℕ
  send_task t s = done t.ctx.index (record s { task_rx = s.task_rx ++ t ∷ [] })

  unfoldable pub send_one : I → Option ℕ → Call I O E Q ℕ
  unfolding prepare_task send_task as_unprocessed
  send_one input outcome_tx = do
    t ← prepare_task input outcome_tx
    poisoned ← read (λ s. s.poisoned)
    if poisoned then as_unprocessed t else send_task t

  abbrev pub apply_send : I → ℕ → Call I O E Q ℕ
  apply_send input tx = send_one input (some tx)

  abbrev pub apply_store : I → Call I O E Q ℕ
  apply_store input = send_one input none

  -- The batch, and the lower bound that its `size_hint` gives.
  unfoldable pub send_batch : ℕ → List I → Option ℕ → Call I O E Q (List ℕ)
  unfolding reserve for_batch send_task as_unprocessed
  send_batch batch_size batch outcome_tx = do
    indices ← reserve batch_size
    poisoned ← read (λ s. s.poisoned)
    for_batch (λ t. if poisoned then as_unprocessed t else send_task t) outcome_tx batch indices

  -- An `ExactSizeIterator` gives its length.
  abbrev pub swarm_send : List I → ℕ → Call I O E Q (List ℕ)
  swarm_send batch tx = send_batch (length batch) batch (some tx)

  abbrev pub swarm_store : List I → Call I O E Q (List ℕ)
  swarm_store batch = send_batch (length batch) batch none

  unfoldable pub map_send : List I → ℕ → Call I O E Q (List ℕ)
  unfolding send_one collect
  map_send inputs tx = collect (λ input. apply_send input tx) inputs

  unfoldable pub map_store : List I → Call I O E Q (List ℕ)
  unfolding send_one collect
  map_store inputs = collect apply_store inputs

  -- `swarm` and `map` return the iterator over what the channel delivers.
  unfoldable pub take_ordered : ℕ → List ℕ → Shared I O E Q → OutcomeIterator I O E
  unfolding Iter.new
  take_ordered tx indices s = Iter.new (s.channels tx).sent indices

  unfoldable pub take_unprocessed_inputs : Call I O E Q (List I)
  unfolding take_unprocessed collect unprocessed_value
  take_unprocessed_inputs = do taken ← take_unprocessed; collect unprocessed_value taken

  -- `resume_send` and `resume_store`
  unfoldable pub resume_into : Option ℕ → Call I O E Q (List ℕ)
  unfolding set_suspended take_unprocessed_inputs send_batch
  resume_into outcome_tx = do
    changed ← set_suspended false
    if changed
        then (do inputs ← take_unprocessed_inputs; send_batch (length inputs) inputs outcome_tx)
        else pure []

  module _ {κ} {St T : Type κ} where
    -- `scan_send` and `scan_store`: the fold, in which the closure changes its state.
    unfoldable pub scan_with :
        (St → T → St × I) → Option ℕ → List T → List ℕ → St → Call I O E Q (List ℕ × St)
    unfolding send_one
    scan_with f outcome_tx [] indices acc = pure (indices, acc)
    scan_with f outcome_tx (item ∷ items) indices acc = do
      let (acc', input) = f acc item
      index ← send_one input outcome_tx
      scan_with f outcome_tx items (indices ++ index ∷ []) acc'

    unfoldable pub scan_into :
        Option ℕ → List T → St → (St → T → St × I) → Call I O E Q (List ℕ × St)
    unfolding scan_with
    scan_into outcome_tx items init f = scan_with f outcome_tx items [] init

    -- `try_scan_send` and `try_scan_store`: the fold stops at the first error of the closure.
    unfoldable pub try_scan_with {μ} :
        {X : Type μ}
        → (St → T → St × Result I X)
        → Option ℕ
        → List T
        → List ℕ
        → St
        → Call I O E Q (Result (List ℕ × St) X)
    unfolding send_one
    try_scan_with f outcome_tx [] indices acc = pure (ok (indices, acc))
    try_scan_with f outcome_tx (item ∷ items) indices acc =
        let (acc', input) = f acc item in
        elim input [
          | err e ↦ pure (err e)
          | ok i ↦ (do
            index ← send_one i outcome_tx
            try_scan_with f outcome_tx items (indices ++ index ∷ []) acc')
        ]

    unfoldable pub try_scan_into {μ} :
        {X : Type μ}
        → Option ℕ
        → List T
        → St
        → (St → T → St × Result I X)
        → Call I O E Q (Result (List ℕ × St) X)
    unfolding try_scan_with
    try_scan_into outcome_tx items init f = try_scan_with f outcome_tx items [] init
