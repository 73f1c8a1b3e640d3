-- ===== src/Pool/Closing/Drop.antt =====
-- src/hive/hive.rs, `drop`: the call in which no other thread takes a step in between.
use procpool.Common.{
  ℕ, ◌≡◌, refl, List, [], ◌∷◌, map, done, arith, inl, inr, Bool-cases, Option-cases,
}
use procpool.Common.Maps.{insert}
use procpool.Delay.{DelayQueue, drain}
use procpool.Hive.{drop}
use procpool.Outcome.{Outcome, unprocessed, index}
use procpool.Outcome.Store.{Outcomes}
use procpool.Pool.{System}
use procpool.Pool.Closing.{
  Closing, Others, Phase, Closes, poisoned, tasks, retries, nothing, drains_task, tasks_drained,
  drains_retry, retries_drained, starts, goes_on,
}
use procpool.Shared.{Task, Channel, Shared, referrer_is_dropping}
use procpool.Shared.Tasks.{
  send_or_store, send_or_store_task, into_unprocessed_try_send, into_unprocessed, deliver,
  try_send_msg, sent_on, add_outcome,
}
use procpool.Shared.Teardown.{poison, drain_tasks_into_unprocessed}

module _ {ℓ} {I O E Q : Type ℓ} where
  -- The state with these tasks in the two queues, these channels and these outcomes.
  abbrev with :
      Shared I O E Q
      → List (Task I)
      → DelayQueue (Task I)
      → (ℕ → Channel I O E)
      → Outcomes I O E
      → Shared I O E Q
  with s ts q channels outcomes = record s {
    task_rx = ts;
    retry_queue = q;
    channels = channels;
    outcomes = outcomes;
  }

  -- Sending or storing one task does not look at the queues.
  send_or_store_task-with :
      (x : Task I) (s : Shared I O E Q)
      → (channels : ℕ → Channel I O E) × (outcomes : Outcomes I O E) × ((ts : List (Task I))
            (q : DelayQueue (Task I))
          → send_or_store_task x (record s { task_rx = ts; retry_queue = q })
            ≡ done tt (with s ts q channels outcomes))
  unfolding send_or_store_task into_unprocessed_try_send into_unprocessed deliver try_send_msg
      add_outcome
  send_or_store_task-with x s =
      let o : Outcome I O E = unprocessed x.input x.ctx.index in
      elim (Option-cases x.outcome_tx) [
        | inl no_tx ↦ (s.channels, insert (index o) o s.outcomes, λ ts q. ground arith)
        | inr (c, e) ↦ elim (Bool-cases (s.channels c).connected) [
          | inl live ↦ (sent_on c o s, s.outcomes, λ ts q. ground arith)
          | inr gone ↦ (s.channels, insert (index o) o s.outcomes, λ ts q. ground arith)
        ]
      ]

  abbrev in_phase : Closing I O E Q → Phase → Shared I O E Q → List ℕ → Closing I O E Q
  in_phase c phase s delivered = record c { phase = phase; shared = s; delivered = delivered }

  module _ {first : Closing I O E Q} (c : Closing I O E Q) where
    tasks-Closes :
        (xs : List (Task I)) (s : Shared I O E Q) (delivered : List ℕ)
        → Closes first (in_phase c tasks (record s { task_rx = xs }) delivered)
        → (u : Shared I O E Q) × (delivered' : List ℕ) × (send_or_store xs
              (record s { task_rx = [] })
            ≡ done tt u)
          × Closes first (in_phase c tasks u delivered')
          × (u.task_rx ≡ [])
    unfolding send_or_store
    tasks-Closes [] s delivered before = (record s { task_rx = [] }, delivered, refl, before, refl)
    tasks-Closes (x ∷ xs) s delivered before =
        let (channels, outcomes, f) = send_or_store_task-with x s in
        let s' : Shared I O E Q = record s { channels = channels; outcomes = outcomes } in
        let (u, delivered', e, after, empty) =
          tasks-Closes xs s' (x.ctx.index ∷ delivered)
            (goes_on before (drains_task x xs refl refl (f xs s.retry_queue))) in
        (u, delivered', ground (arith, e, f [] s.retry_queue), after, empty)

    retries-Closes :
        (q : DelayQueue (Task I)) (s : Shared I O E Q) (delivered : List ℕ)
        → Closes first (in_phase c retries (record s { retry_queue = q }) delivered)
        → (u : Shared I O E Q) × (delivered' : List ℕ) × (send_or_store
              (map (λ d. d.value) q)
              (record s { retry_queue = [] })
            ≡ done tt u)
          × Closes first (in_phase c retries u delivered')
          × (u.retry_queue ≡ [])
    unfolding send_or_store
    retries-Closes [] s delivered before =
        (record s { retry_queue = [] }, delivered, refl, before, refl)
    retries-Closes (d ∷ q) s delivered before =
        let x = d.value in
        let (channels, outcomes, f) = send_or_store_task-with x s in
        let s' : Shared I O E Q = record s { channels = channels; outcomes = outcomes } in
        let (u, delivered', e, after, empty) =
          retries-Closes q s' (x.ctx.index ∷ delivered)
            (goes_on before (drains_retry d q refl refl (f s.task_rx q))) in
        (u, delivered', ground (arith, e, f s.task_rx []), after, empty)

  -- Dropping the last handle of a hive, as a call of which no other thread sees the middle, is a
  -- run of the steps in which the flag is set and both queues are drained: it ends in the state
  -- that the call leaves, with nothing left to drain.
  pub drop-Closes :
      (others : Others) (s : System I O E Q)
      → s.shared.num_referrers ≡ 1
      → (c : Closing I O E Q) × (drop s.shared ≡ done tt c.shared)
        × Closes (poisoned others s) c
        × (c.phase ≡ nothing)
  unfolding drop referrer_is_dropping poison drain_tasks_into_unprocessed drain
  drop-Closes others s last =
      let c = poisoned others s in
      let (t, told, e, drained, no_tasks) =
        tasks-Closes c s.shared.task_rx c.shared s.delivered starts in
      let (u, told', e', after, no_retries) =
        retries-Closes c t.retry_queue t told (goes_on drained (tasks_drained refl no_tasks)) in
      (
        in_phase c nothing u told',
        ground (arith, e, e', last),
        goes_on after (retries_drained refl no_retries),
        refl,
      )
