-- ===== src/Pool/Resumed.antt =====
-- src/hive/hive.rs, `resume_send` and `resume_store`, as steps of the client's thread.
use mathlib.Core.List.{append-nil, append_assoc}
use procpool.Common.{
  ℕ, suc, ◌+◌, ◌^◌, ◌<◌, ◌≡◌, refl, subst, List, [], ◌∷◌, ◌++◌, Option, true, false, length, range,
  done, arith,
}
use procpool.Bee.{hive_suspended, new_context}
use procpool.Config.{Config}
use procpool.Hive.Submit.{send_task, resume_into}
use procpool.Hive.Submit.Batch.{batch_tasks, reserve-lem}
use procpool.Hive.Submit.Resume.{resume_into-unprocessed}
use procpool.Outcome.{is_unprocessed}
use procpool.Outcome.Store.Removal.{without}
use procpool.Pool.{
  System, Step, Reach, init, reserves, makes, suspends, takes_unprocessed, later, pops, finds_none,
  receives, activates, settles, unwinds, retry_panics, finishes,
}
use procpool.Pool.Counts.{Counts}
use procpool.Pool.Invariant.{Reach-Inv, queued, active}
use procpool.Pool.Stored.{outcomes-Reach}
use procpool.Shared.{Task, Channel, Shared, differs, set_suspended}
use procpool.Shared.Tasks.{new_task}
use procpool.Shared.Teardown.Taken.{unprocessed_inputs, take_unprocessed-lem}

module _ {ℓ} {I O E Q : Type ℓ} where
  -- A step of a client's thread.
  abbrev pub ByClient : {threads : ℕ} {s t : System I O E Q} → Step threads s t → Type 0
  ByClient (pops _ _ _ _) = ⊥
  ByClient (finds_none _ _) = ⊥
  ByClient (receives _ _ _) = ⊥
  ByClient (activates _ _ _ _ _) = ⊥
  ByClient (settles _ _ _ _ _ _ _) = ⊥
  ByClient (unwinds _ _ _ _) = ⊥
  ByClient (retry_panics _ _ _ _ _ _ _ _) = ⊥
  ByClient (finishes _ _ _) = ⊥
  ByClient _ = Unit

  pub data ClientRun (threads : ℕ) (first : System I O E Q) : System I O E Q → Type (ℓ + 1) where
    stays : ClientRun threads first first
    acts :
        {s t : System I O E Q}
        → ClientRun threads first s
        → (step : Step threads s t) → ByClient step
        → ClientRun threads first t

  ClientRun-Reach :
      {threads : ℕ} {first s t : System I O E Q}
      → Reach threads first s
      → ClientRun threads s t
      → Reach threads first t
  ClientRun-Reach r stays = r
  ClientRun-Reach r (acts run step by) = later (ClientRun-Reach r run) step

module _ {ℓ} {I O E Q : Type ℓ} (tx : Option ℕ) where
  -- The state once these inputs, whose indices were reserved from `at`, are in the queue.
  abbrev batch_sent : System I O E Q → ℕ → List I → List ℕ → System I O E Q
  batch_sent s at inputs others = record s {
    shared = record s.shared { task_rx = s.shared.task_rx ++ batch_tasks tx at inputs };
    reserved = others;
  }

  -- The iterator of `prepare_batch` is read to its end: each task is made and sent.
  batch_sent-ClientRun :
      {threads : ℕ} {first : System I O E Q} (at : ℕ) (inputs : List I) (others : List ℕ)
      (s : System I O E Q)
      → ClientRun threads first s
      → s.reserved ≡ range at (length inputs) ++ others
      → ClientRun threads first (batch_sent s at inputs others)
  unfolding new_task new_context send_task
  batch_sent-ClientRun {threads} {first} at [] others s r all =
      let same : s ≡ batch_sent s at [] others = ground (arith, append-nil s.shared.task_rx) in
      subst (ClientRun threads first) same r
  batch_sent-ClientRun {threads} {first} at (v ∷ vs) others s r all =
      let x : Task I = new_task v (new_context at hive_suspended) tx in
      let left = range (suc at) (length vs) ++ others in
      let u : System I O E Q = record s {
        shared = record s.shared { task_rx = s.shared.task_rx ++ x ∷ [] };
        reserved = left;
      } in
      let made = acts r (makes [] left at v tx all) tt in
      let sent = acts made (Step.sends [] s.prepared x at refl refl) tt in
      subst
        (λ ts.
          ClientRun threads first
            (record s { shared = record s.shared { task_rx = ts }; reserved = others }))
        (append_assoc s.shared.task_rx (x ∷ []) (batch_tasks tx (suc at) vs))
        (batch_sent-ClientRun (suc at) vs others u sent refl)

module _ {ℓ} {I O E Q : Type ℓ} {threads : ℕ} (small : threads < 2 ^ 16) (config : Config)
    (queen : Q) (channels : ℕ → Channel I O E) (s : System I O E Q)
    (r : Reach threads (init config queen channels) s) where
  -- In every state that the steps of a hive with less than 2^16 threads reach, in which the hive is
  -- suspended, and with room in the two counters, resuming it does not panic and is a sequence
  -- of steps of a client's thread from that state. It returns one new index for each stored unprocessed
  -- outcome, consecutive from the next task index; the inputs of these outcomes are queued for the
  -- given channel, or to be stored, in the order of the store; and exactly they leave the store.
  pub resume_into-Reach :
      (tx : Option ℕ)
      → s.shared.suspended ≡ true
      → queued s + length (unprocessed_inputs s.shared.outcomes) < 2 ^ 48
      → s.shared.next_task_index + length (unprocessed_inputs s.shared.outcomes) < 2 ^ 64
      → let inputs = unprocessed_inputs s.shared.outcomes in
        let indices = range s.shared.next_task_index (length inputs) in
        (t : System I O E Q) × (resume_into tx s.shared ≡ done indices t.shared)
        × ClientRun threads s t
        × Reach threads (init config queen channels) t
        × (t.created ≡ indices ++ s.created)
        × (t.shared.suspended ≡ false)
        × (t.shared.outcomes ≡ without is_unprocessed s.shared.outcomes)
        × (t.shared.task_rx ≡ s.shared.task_rx ++ batch_tasks tx s.shared.next_task_index inputs)
  unfolding set_suspended
  resume_into-Reach tx asleep fits wide =
      let inv = Reach-Inv small config queen channels s r in
      let store = (outcomes-Reach config queen channels s r).is_store in
      let inputs = unprocessed_inputs s.shared.outcomes in
      let next = s.shared.next_task_index in
      let awake : Shared I O E Q = record s.shared { suspended = false } in
      let taken : Shared I O E Q = record awake {
        outcomes = without is_unprocessed s.shared.outcomes;
      } in
      let c : Counts taken (queued s) (active s) = record {
        word = inv.counts.word;
        queued_fits = inv.counts.queued_fits;
        active_fits = inv.counts.active_fits;
      } in
      let r1 = acts stays (suspends false (differs s.shared.suspended false) refl) tt in
      let r2 = acts r1 (takes_unprocessed _ (take_unprocessed-lem awake store)) tt in
      let r3 =
        acts r2
          (reserves (length inputs) (range next (length inputs))
            (reserve-lem (length inputs) (queued s) (active s) taken c fits wide))
          tt in
      let r4 = batch_sent-ClientRun tx next inputs s.reserved _ r3 refl in
      let e =
        resume_into-unprocessed tx (queued s) (active s) s.shared inv.counts inv.alive store fits
          wide in
      (_, ground (arith, e, asleep), r4, ClientRun-Reach r r4, refl, refl, refl, refl)
