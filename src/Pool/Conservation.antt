-- ===== src/Pool/Conservation.antt =====
-- src/hive/hive.rs and src/hive/shared.rs: where the tasks of a hive are while its threads interleave.
use procpool.Common.{
  ℕ, ◌+◌, ◌^◌, ◌<◌, ◌≡◌, refl, ap, ◌∙◌, List, [], ◌∷◌, ◌++◌, length, Bool, true, false,
  if◌then◌else◌, arith, inl, inr,
}
use procpool.Bee.{new_context}
use procpool.Config.{Config}
use procpool.Shared.Tasks.{new_task}
use procpool.Delay.{DelayQueue}
use procpool.Hive.{join_waits}
use procpool.Pool.{
  System, Step, Reach, init, is_requeued, prepares, reserves, makes, pops, finds_none, receives,
  activates, settles, unwinds, retry_panics, finishes, suspends, clones, drops_clone, takes_stored,
  takes_unprocessed, start, later,
}
use procpool.Pool.Occurs.{
  one, occurs, occurs_tasks, occurs_retries, occurs-append, occurs_tasks-append, everywhere,
  prepare_task-queues, reserve-queues, send_task-queues, pop_retry-queues, pop_retry-none-queues,
  receive-queues, activate-queues, finish_task-queues, settle-queues,
}
use procpool.Pool.Join.{join_waits-Reach}
use procpool.Shared.{Task, Channel, set_suspended, new, referrer_is_cloning, referrer_is_dropping}
use procpool.Shared.Teardown.{take_outcomes}
use procpool.Shared.Teardown.Taken.{take_unprocessed-only}

module _ {ℓ} {I : Type ℓ} where
  pub occurs_tasks-middle :
      (k : ℕ) (xs pre post : List (Task I)) (x : Task I)
      → xs ≡ pre ++ x ∷ post
      → occurs_tasks k xs ≡ occurs_tasks k (pre ++ post) + one k x.ctx.index
  occurs_tasks-middle k xs pre post x split =
      ap (occurs_tasks k) split
      ∙ omega (arith, occurs_tasks-append k pre (x ∷ post), occurs_tasks-append k pre post)

pub occurs-middle :
    (k : ℕ) (is pre post : List ℕ) (i : ℕ)
    → is ≡ pre ++ i ∷ post
    → occurs k is ≡ occurs k (pre ++ post) + one k i
occurs-middle k is pre post i split =
    ap (occurs k) split ∙ omega (arith, occurs-append k pre (i ∷ post), occurs-append k pre post)

-- A task that is settled is counted once more, in the retry queue or as delivered.
pub settled_once :
    (k : ℕ) (again : Bool) (i : ℕ) (delivered : List ℕ)
    → (if again then one k i else 0) + occurs k (if again then delivered else i ∷ delivered)
      ≡ one k i + occurs k delivered
settled_once k true i delivered = refl
settled_once k false i delivered = omega arith

module _ {ℓ} {I O E Q : Type ℓ} (k : ℕ) where
  Step-everywhere :
      {threads : ℕ} {s t : System I O E Q}
      → occurs k s.created ≡ everywhere k s
      → Step threads s t
      → occurs k t.created ≡ everywhere k t
  unfolding set_suspended referrer_is_cloning referrer_is_dropping take_outcomes new_task
      new_context
  Step-everywhere {s = s} h (prepares {t} input tx x e) =
      omega (arith, prepare_task-queues k input tx x s.shared t e)
  Step-everywhere {s = s} h (reserves {t} n indices e) = omega (
    arith,
    reserve-queues k n indices s.shared t e,
    occurs-append k indices s.reserved,
    occurs-append k indices s.created,
  )
  Step-everywhere {s = s} h (makes pre post i input tx split) =
      omega (arith, occurs-middle k s.reserved pre post i split)
  Step-everywhere {s = s} h (Step.sends {t} pre post x i split e) = omega (
    arith,
    send_task-queues k x i s.shared t e,
    occurs_tasks-middle k s.prepared pre post x split,
  )
  Step-everywhere {s = s} h (pops {t} now x room e) =
      omega (arith, pop_retry-queues k now x s.shared t e)
  Step-everywhere {s = s} h (finds_none {t} now e) =
      omega (arith, pop_retry-none-queues k now s.shared t e)
  Step-everywhere {s = s} h (receives {t} x room e) = omega (arith, receive-queues k x s.shared t e)
  Step-everywhere {s = s} h (activates {t} pre post x split e) =
      omega
        (arith, activate-queues k x s.shared t e, occurs_tasks-middle k s.received pre post x split)
  Step-everywhere {s = s} h (settles {t} now pre post x result split e) =
      let again = is_requeued x.ctx result s.shared in
      omega (
        arith,
        settle-queues k now x.ctx x.outcome_tx result s.shared t e,
        occurs_tasks-middle k s.running pre post x split,
        settled_once k again x.ctx.index s.delivered,
      )
  Step-everywhere {s = s} h (unwinds pre post x split) =
      omega (arith, occurs_tasks-middle k s.running pre post x split)
  Step-everywhere {s = s} h (retry_panics pre post x input error split again over) =
      omega (arith, occurs_tasks-middle k s.running pre post x split)
  Step-everywhere {s = s} h (finishes {t} panicking busy e) =
      omega (arith, finish_task-queues k panicking s.shared t e)
  Step-everywhere {s = s} h (suspends {t} b changed e) = ground arith
  Step-everywhere {s = s} h (clones {t} n e) = ground arith
  Step-everywhere {s = s} h (drops_clone {t} n e left) = ground arith
  Step-everywhere {s = s} h (takes_stored {t} stored e) = ground arith
  Step-everywhere {s = s} h (takes_unprocessed {t} taken e) =
      rw (take_unprocessed-only s.shared t taken e) h

  pub Reach-everywhere :
      {threads : ℕ} (config : Config) (queen : Q) (channels : ℕ → Channel I O E)
      (s : System I O E Q)
      → Reach threads (init config queen channels) s
      → occurs k s.created ≡ everywhere k s
  unfolding new
  Reach-everywhere config queen channels s start = refl
  Reach-everywhere config queen channels s (later r step) =
      Step-everywhere (Reach-everywhere config queen channels _ r) step

module _ {ℓ} {I : Type ℓ} where
  no_tasks : (k : ℕ) (xs : List (Task I)) → length xs ≡ 0 → occurs_tasks k xs ≡ 0
  no_tasks k [] e = refl
  no_tasks k (x ∷ xs) e = absurd (omega arith)

  no_retries : (k : ℕ) (q : DelayQueue (Task I)) → length q ≡ 0 → occurs_retries k q ≡ 0
  no_retries k [] e = refl
  no_retries k (d ∷ q) e = absurd (omega arith)

no_indices : (k : ℕ) (is : List ℕ) → length is ≡ 0 → occurs k is ≡ 0
no_indices k [] e = refl
no_indices k (i ∷ is) e = absurd (omega arith)

module _ {ℓ} {I O E Q : Type ℓ} {threads : ℕ} (small : threads < 2 ^ 16) (config : Config)
    (queen : Q) (channels : ℕ → Channel I O E) (s : System I O E Q)
    (r : Reach threads (init config queen channels) s) where
  -- In every state that the steps of a hive with less than 2^16 threads reach, and in which the hive is
  -- not suspended and the condition on which `join` waits is false, every index has been given out
  -- exactly as often as a task with it was delivered or its worker has panicked: no task is left
  -- anywhere, none is lost otherwise, and none is delivered twice.
  pub join-delivered :
      (k : ℕ)
      → s.shared.suspended ≡ false
      → join_waits s.shared ≡ false
      → occurs k s.created ≡ occurs k s.delivered + occurs k s.lost
  join-delivered k awake idle =
      let (none_active, or_asleep) = (join_waits-Reach small config queen channels s r).0 idle in
      elim or_asleep [
        | inl asleep ↦ absurd (cc)
        | inr empty ↦ omega (
          arith,
          Reach-everywhere k config queen channels s r,
          no_indices k s.reserved (omega arith),
          no_tasks k s.prepared (omega arith),
          no_tasks k s.shared.task_rx (omega arith),
          no_retries k s.shared.retry_queue (omega arith),
          no_tasks k s.received (omega arith),
          no_tasks k s.running (omega arith),
        )
      ]
