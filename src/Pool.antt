-- ===== src/Pool.antt =====
-- The threads of a hive as interleaved steps on the shared state (src/hive/hive.rs and
-- src/hive/shared.rs). A step is what a thread does under one lock or in one atomic access, or a
-- group of these that no other thread can tell from one. The hive is alive: none of its worker
-- threads has left its loop. A worker may return any result, or panic.
pub mod Counts
pub mod Settle
pub mod Invariant
pub mod Join
pub mod Retries
pub mod Occurs
pub mod Issued
pub mod Conservation
pub mod Once
pub mod Frames
pub mod Mapped
pub mod Totals
pub mod Works
pub mod Returns
pub mod Moves
pub mod Progress
pub mod Notify
pub mod Stored
pub mod StoredOrder
pub mod Resumed
pub mod Closing
use procpool.Common.{
  ℕ, zero, suc, ◌+◌, ◌-◌, ◌<◌, ◌≡◌, List, [], ◌∷◌, ◌++◌, length, Option, none, some, Bool, true,
  false, panicked, Result, ok, err, Exec, done, if◌then◌else◌,
}
use procpool.Bee.{Context, WorkerResult, retryable, hive_suspended, new_context, inc_attempt}
use procpool.Shared.Retry.{can_retry, retry_delay}
use procpool.Config.{Config}
use procpool.Cores.{Cores}
use procpool.Outcome.{Outcome}
use procpool.Outcome.Store.{Outcomes}
use procpool.Shared.{
  Task, Channel, Shared, new, finish_task, set_suspended, add_threads, referrer_is_cloning,
  referrer_is_dropping,
}
use procpool.Shared.Tasks.{prepare_task, reserve, new_task}
use procpool.Shared.Queue.{Turn, ends, pop_retry, receive, activate}
use procpool.Shared.Teardown.{take_outcomes, take_unprocessed}
use procpool.Hive.Submit.{send_task}
use procpool.Hive.Thread.{settle}

-- The last three fields are the history: the indices that were given out, those of the tasks whose
-- outcome was delivered, and those of the tasks that were lost in a panic.
pub record System {ℓ} (I O E Q : Type ℓ) : Type ℓ where
  pub shared : Shared I O E Q
  pub reserved : List ℕ  -- indices of a batch that are counted, with no task yet
  pub prepared : List (Task I)  -- counted and not yet sent
  pub received : List (Task I)  -- taken from a queue, not yet active
  pub running : List (Task I)  -- active, in the hands of a worker
  pub finishing : ℕ  -- settled or given up in a panic, not yet finished
  pub created : List ℕ
  pub delivered : List ℕ
  pub lost : List ℕ

module _ {ℓ} {I O E Q : Type ℓ} where
  abbrev pub threads_busy : System I O E Q → ℕ
  threads_busy s = length s.received + length s.running + s.finishing

  -- Whether a task is queued again when its worker has returned.
  abbrev pub is_requeued : Context → WorkerResult I O E → Shared I O E Q → Bool
  is_requeued ctx (err (retryable _ _)) s = can_retry ctx s
  is_requeued ctx _ s = false

  pub data Step (threads : ℕ) (s : System I O E Q) : System I O E Q → Type (ℓ + 1) where
    prepares :
        {t : Shared I O E Q} (input : I) (tx : Option ℕ) (x : Task I)
        → prepare_task input tx s.shared ≡ done x t
        → Step threads s
            (record s { shared = t; prepared = x ∷ s.prepared; created = x.ctx.index ∷ s.created })
    reserves :
        {t : Shared I O E Q} (n : ℕ) (indices : List ℕ)
        → reserve n s.shared ≡ done indices t
        → Step threads s (record s {
          shared = t;
          reserved = indices ++ s.reserved;
          created = indices ++ s.created;
        })
    makes :
        (pre post : List ℕ) (i : ℕ) (input : I) (tx : Option ℕ)
        → s.reserved ≡ pre ++ i ∷ post
        → Step threads s (record s {
          reserved = pre ++ post;
          prepared = new_task input (new_context i hive_suspended) tx ∷ s.prepared;
        })
    sends :
        {t : Shared I O E Q} (pre post : List (Task I)) (x : Task I) (i : ℕ)
        → s.prepared ≡ pre ++ x ∷ post
        → send_task x s.shared ≡ done i t
        → Step threads s (record s { shared = t; prepared = pre ++ post })
    pops :
        {t : Shared I O E Q} (now : ℕ) (x : Task I)
        → threads_busy s < threads
        → pop_retry now s.shared ≡ done (some x) t
        → Step threads s (record s { shared = t; received = x ∷ s.received })
    finds_none :
        {t : Shared I O E Q} (now : ℕ)
        → pop_retry now s.shared ≡ done none t
        → Step threads s (record s { shared = t })
    receives :
        {t : Shared I O E Q} (x : Task I)
        → threads_busy s < threads
        → receive false s.shared ≡ done (ends (ok x)) t
        → Step threads s (record s { shared = t; received = x ∷ s.received })
    activates :
        {t : Shared I O E Q} (pre post : List (Task I)) (x : Task I)
        → s.received ≡ pre ++ x ∷ post
        → activate (ends (ok x)) s.shared ≡ done (ends (ok x)) t
        → Step threads s (record s { shared = t; received = pre ++ post; running = x ∷ s.running })
    settles :
        {t : Shared I O E Q} (now : ℕ) (pre post : List (Task I)) (x : Task I)
        (result : WorkerResult I O E)
        → s.running ≡ pre ++ x ∷ post
        → settle now x.ctx x.outcome_tx result s.shared ≡ done tt t
        → Step threads s (record s {
          shared = t;
          running = pre ++ post;
          finishing = s.finishing + 1;
          delivered =
              if is_requeued x.ctx result s.shared then s.delivered else x.ctx.index ∷ s.delivered;
        })
    unwinds :
        (pre post : List (Task I)) (x : Task I)
        → s.running ≡ pre ++ x ∷ post
        → Step threads s (record s {
          running = pre ++ post;
          finishing = s.finishing + 1;
          lost = x.ctx.index ∷ s.lost;
        })
    -- The delay of a retry panics in `queue_retry`, before that has changed any state.
    retry_panics :
        (pre post : List (Task I)) (x : Task I) (input : I) (error : E)
        → s.running ≡ pre ++ x ∷ post
        → can_retry x.ctx s.shared ≡ true
        → retry_delay (inc_attempt x.ctx) s.shared ≡ panicked s.shared
        → Step threads s (record s {
          running = pre ++ post;
          finishing = s.finishing + 1;
          lost = x.ctx.index ∷ s.lost;
        })
    finishes :
        {t : Shared I O E Q} (panicking : Bool)
        → 0 < s.finishing
        → finish_task panicking s.shared ≡ done tt t
        → Step threads s (record s { shared = t; finishing = s.finishing - 1 })
    suspends :
        {t : Shared I O E Q} (b changed : Bool)
        → set_suspended b s.shared ≡ done changed t
        → Step threads s (record s { shared = t })
    clones :
        {t : Shared I O E Q} (n : ℕ)
        → referrer_is_cloning s.shared ≡ done n t
        → Step threads s (record s { shared = t })
    drops_clone :
        {t : Shared I O E Q} (n : ℕ)
        → referrer_is_dropping s.shared ≡ done n t
        → 0 < t.num_referrers
        → Step threads s (record s { shared = t })
    takes_stored :
        {t : Shared I O E Q} (stored : Outcomes I O E)
        → take_outcomes s.shared ≡ done stored t
        → Step threads s (record s { shared = t })
    takes_unprocessed :
        {t : Shared I O E Q} (taken : List (Outcome I O E))
        → take_unprocessed s.shared ≡ done taken t
        → Step threads s (record s { shared = t })

  abbrev pub init : Config → Q → (ℕ → Channel I O E) → System I O E Q
  init config queen channels = record {
    shared = new config queen channels;
    reserved = [];
    prepared = [];
    received = [];
    running = [];
    finishing = 0;
    created = [];
    delivered = [];
    lost = [];
  }

  pub data Reach (threads : ℕ) (first : System I O E Q) : System I O E Q → Type (ℓ + 1) where
    start : Reach threads first first
    later :
        {s t : System I O E Q} → Reach threads first s → Step threads s t → Reach threads first t
