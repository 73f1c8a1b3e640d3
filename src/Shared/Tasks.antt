-- ===== src/Shared/Tasks.antt =====
-- src/hive/shared.rs and src/hive/task.rs: making tasks, and delivering outcomes.
use procpool.Common.{
  ℕ, List, [], ◌∷◌, ◌++◌, Option, none, some, ◌==◌, if◌then◌else◌, done, ◌>>=◌, ◌>>◌, pure, panic,
  modify, unwrap_result,
}
use procpool.Common.Maps.{insert}
use procpool.Atomic
use procpool.Bee.{Context, hive_suspended, new_context}
use procpool.Counter
use procpool.Outcome.{Outcome, unprocessed, index}
use procpool.Shared.{Task, Channel, Shared, Call, queue_bits, on_num_tasks, on_next_index, range_of}

abbrev pub update {ℓ} : {A : Type ℓ} → (ℕ → A) → ℕ → A → ℕ → A
update f i a j = if i == j then a else f j

module _ {ℓ} {I : Type ℓ} where
  unfoldable pub new_task : I → Context → Option ℕ → Task I
  new_task input ctx outcome_tx = record { input = input; ctx = ctx; outcome_tx = outcome_tx }

  unfoldable pub task_index : Task I → ℕ
  task_index t = t.ctx.index

  unfoldable pub into_unprocessed : {O E : Type ℓ} → Task I → Outcome I O E × Option ℕ
  into_unprocessed t = (unprocessed t.input t.ctx.index, t.outcome_tx)

module _ {ℓ} {I O E Q : Type ℓ} where
  -- The channels after a message is sent on one.
  unfoldable pub sent_on : ℕ → Outcome I O E → Shared I O E Q → ℕ → Channel I O E
  sent_on tx msg s =
      let c = s.channels tx in update s.channels tx (record c { sent = c.sent ++ msg ∷ [] })

  -- `SenderExt::try_send_msg`: the message comes back if the receiver is gone.
  unfoldable pub try_send_msg : ℕ → Outcome I O E → Call I O E Q (Option (Outcome I O E))
  unfolding sent_on
  try_send_msg tx msg s =
      if (s.channels tx).connected
      then done none (record s { channels = sent_on tx msg s })
      else done (some msg) s

  unfoldable pub add_outcome : Outcome I O E → Call I O E Q (Unit {0})
  unfolding insert index
  add_outcome o = modify λ s. record s { outcomes = insert (index o) o s.outcomes }

  -- Sends the outcome, if there is a sender; what is not sent comes back.
  unfoldable pub deliver : Outcome I O E → Option ℕ → Call I O E Q (Option (Outcome I O E))
  deliver o none = pure (some o)
  deliver o (some tx) = try_send_msg tx o

  abbrev pub store_rest : Option (Outcome I O E) → Call I O E Q (Unit {0})
  store_rest none = pure tt
  store_rest (some o) = add_outcome o

  unfoldable pub send_or_store_outcome : Outcome I O E → Option ℕ → Call I O E Q (Unit {0})
  send_or_store_outcome o outcome_tx = do rest ← deliver o outcome_tx; store_rest rest

  unfoldable pub into_unprocessed_try_send : Task I → Call I O E Q (Option (Outcome I O E))
  unfolding deliver into_unprocessed
  into_unprocessed_try_send t = let (o, tx) = into_unprocessed t in deliver o tx

  -- The body of `send_or_store`, for one task.
  unfoldable pub send_or_store_task : Task I → Call I O E Q (Unit {0})
  unfolding into_unprocessed_try_send add_outcome
  send_or_store_task t = do rest ← into_unprocessed_try_send t; store_rest rest

  unfoldable pub send_or_store : List (Task I) → Call I O E Q (Unit {0})
  unfolding send_or_store_task
  send_or_store [] = pure tt
  send_or_store (t ∷ ts) = do send_or_store_task t; send_or_store ts

  unfoldable pub prepare_task : I → Option ℕ → Call I O E Q (Task I)
  unfolding Counter.increment_left new_context new_task
  prepare_task input outcome_tx = do
    prev ← on_num_tasks (Counter.increment_left queue_bits 1)
    _ ← unwrap_result prev
    index ← on_next_index (Atomic.add 64 1)
    pure (new_task input (new_context index hive_suspended) outcome_tx)

  -- `prepare_batch` before its iterator is read: the indices that it reserves.
  unfoldable pub reserve : ℕ → Call I O E Q (List ℕ)
  unfolding Counter.increment_left
  reserve min_size = do
    prev ← on_num_tasks (Counter.increment_left queue_bits min_size)
    _ ← unwrap_result prev
    index_start ← on_next_index (Atomic.add 64 min_size)
    range_of index_start min_size

  -- The iterator of `prepare_batch`, read to its end: `f` is called with each task as it is made.
  unfoldable pub for_batch {κ} :
      {A : Type κ} → (Task I → Call I O E Q A) → Option ℕ → List I → List ℕ → Call I O E Q (List A)
  unfolding prepare_task
  for_batch f tx [] [] = pure []
  for_batch f tx [] (index ∷ indices) = panic
  for_batch f tx (input ∷ inputs) (index ∷ indices) = do
    a ← f (new_task input (new_context index hive_suspended) tx)
    rest ← for_batch f tx inputs indices
    pure (a ∷ rest)
  for_batch f tx (input ∷ inputs) [] = do
    t ← prepare_task input tx
    a ← f t
    rest ← for_batch f tx inputs []
    pure (a ∷ rest)

  unfoldable pub prepare_batch {κ} :
      {A : Type κ} → (Task I → Call I O E Q A) → ℕ → List I → Option ℕ → Call I O E Q (List A)
  unfolding reserve for_batch
  prepare_batch f min_size inputs outcome_tx = do
    indices ← reserve min_size
    for_batch f outcome_tx inputs indices

  -- The closure of `send_or_store_as_unprocessed`.
  unfoldable pub as_unprocessed : Task I → Call I O E Q ℕ
  unfolding send_or_store_task
  as_unprocessed t = do send_or_store_task t; pure t.ctx.index
