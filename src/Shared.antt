-- ===== src/Shared.antt =====
-- src/hive/shared.rs and src/hive/task.rs: the state that the clones of a `Hive` and its worker
-- threads share, with the features `retry` and `affinity`. Each lock is held for one step of the
-- model. The gates carry no state that these operations read. Channels of outcomes are kept beside
-- the state, under the number that stands for their sender.
pub mod Tasks
pub mod Queue
pub mod Retry
pub mod Teardown
pub mod Plain
use procpool.Common.{
  ℕ, zero, ◌+◌, ◌%◌, ◌^◌, List, [], ◌∷◌, ◌++◌, map, Option, none, some, Bool, true, false, not,
  ◌&&◌, ◌||◌, ltb, ◌==◌, if◌then◌else◌, Result, ok, err, Exec, done, ◌>>=◌, ◌>>◌, pure, modify,
  zoom, read, unwrap_result, panic, range,
}
use procpool.Common.Maps.{insert}
use Prim.Native.String.{String}
use procpool.Atomic
use procpool.Atomic.{AtomicOption, MutError, get_option}
use procpool.Bee.{Context}
use procpool.Config.{Config, into_sync_config}
use procpool.Counter
use procpool.Counter.{CounterError}
use procpool.Cores.{Core, Cores}
use procpool.Cores
use procpool.Delay.{DelayQueue}
use procpool.Outcome.{Outcome, index}
use procpool.Outcome.Store.{Outcomes}

-- A task; its sender is the number of a channel.
pub record Task {ℓ} (I : Type ℓ) : Type ℓ where
  pub input : I
  pub ctx : Context
  pub outcome_tx : Option ℕ

-- The gates at which threads wait, and which a call notifies. That changes no state here; what it does
-- to the threads is in Gate.
pub data Waiting : Type 0 where
  join_gate resume_gate : Waiting

-- An outcome channel: whether its receiver lives, and what was sent, oldest first.
pub record Channel {ℓ} (I O E : Type ℓ) : Type ℓ where
  pub connected : Bool
  pub sent : List (Outcome I O E)

pub record Shared {ℓ} (I O E Q : Type ℓ) : Type ℓ where
  pub config : Config
  pub queen : Q
  pub task_rx : List (Task I)
  pub num_tasks : ℕ
  pub next_task_index : ℕ
  pub num_panics : ℕ
  pub num_referrers : ℕ
  pub poisoned : Bool
  pub suspended : Bool
  pub outcomes : Outcomes I O E
  pub retry_queue : DelayQueue (Task I)
  pub next_retry : Option ℕ
  pub channels : ℕ → Channel I O E

-- The left part of the counter of tasks: the type argument of `DualCounter<48>`.
abbrev pub queue_bits : ℕ
queue_bits = 48

abbrev pub Call {ℓ κ} : (I O E Q : Type ℓ) → Type κ → Type (ℓ ⊔ κ)
Call I O E Q A = Shared I O E Q → Exec (Shared I O E Q) A

-- What is set of a `std::thread::Builder`.
pub record ThreadBuilder : Type 0 where
  pub name : Option String
  pub stack_size : Option ℕ

-- Whether two flags differ.
abbrev pub differs : Bool → Bool → Bool
differs true c = not c
differs false c = c

-- The closure of `add_core_affinity`: the larger set, if it is larger.
unfoldable pub grown : Cores → Cores → Option Cores
unfolding Cores.union
grown new_cores cores =
    let (n, updated) = Cores.union new_cores cores in if ltb 0 n then some updated else none

module _ {ℓ} {I O E Q : Type ℓ} where
  -- `Shared::new`, with the channels that exist.
  unfoldable pub new : Config → Q → (ℕ → Channel I O E) → Shared I O E Q
  unfolding Counter.default
  new config queen channels = record {
    config = config;
    queen = queen;
    task_rx = [];
    num_tasks = Counter.default;
    next_task_index = 0;
    num_panics = 0;
    num_referrers = 1;
    poisoned = false;
    suspended = false;
    outcomes = [];
    retry_queue = [];
    next_retry = none;
    channels = channels;
  }

  -- A call on the counter of tasks, on the index counter, and on the configured number of threads.
  abbrev pub on_num_tasks {κ} : {A : Type κ} → (ℕ → Exec ℕ A) → Call I O E Q A
  on_num_tasks m = zoom (λ s. s.num_tasks) (λ s n. record s { num_tasks = n }) m

  abbrev pub on_next_index {κ} : {A : Type κ} → (ℕ → Exec ℕ A) → Call I O E Q A
  on_next_index m = zoom (λ s. s.next_task_index) (λ s n. record s { next_task_index = n }) m

  abbrev pub on_config {κ} : {A : Type κ} → (Config → Exec Config A) → Call I O E Q A
  on_config m = zoom (λ s. s.config) (λ s c. record s { config = c }) m

  abbrev pub on_threads {κ} :
      {A : Type κ} → (AtomicOption ℕ → Exec (AtomicOption ℕ) A) → Call I O E Q A
  on_threads m = on_config (zoom (λ c. c.num_threads) (λ c n. record c { num_threads = n }) m)

  -- `start..start + size`, whose end panics on overflow in a checked build.
  abbrev pub range_of : ℕ → ℕ → Call I O E Q (List ℕ)
  range_of start size = if ltb (start + size) (2 ^ 64) then pure (range start size) else panic

  -- `thread_builder`
  unfoldable pub thread_builder : Shared I O E Q → ThreadBuilder
  unfolding get_option
  thread_builder s = record {
    name = get_option s.config.thread_name;
    stack_size = get_option s.config.thread_stack_size;
  }

  unfoldable pub add_threads : ℕ → Call I O E Q ℕ
  unfolding Atomic.add_option
  add_threads n = do prev ← on_threads (Atomic.add_option 64 n); unwrap_result prev

  unfoldable pub ensure_threads : ℕ → Call I O E Q ℕ
  unfolding Atomic.set_max
  ensure_threads n = do prev ← on_threads (Atomic.set_max n); unwrap_result prev

  -- `queen.create()` is an argument.
  unfoldable pub create_worker {κ} : {W : Type κ} → (Q → Q × W) → Call I O E Q W
  create_worker create s = let (q, w) = create s.queen in done w (record s { queen = q })

  unfoldable pub num_tasks : Shared I O E Q → ℕ × ℕ
  unfolding Counter.get
  num_tasks s = Counter.get queue_bits s.num_tasks

  unfoldable pub has_work : Shared I O E Q → Bool
  unfolding num_tasks
  has_work s =
      let (queued, active) = num_tasks s in
      not s.poisoned && (ltb 0 active || (not s.suspended && ltb 0 queued))

  -- The gate of `join` is notified where no work is left.
  unfoldable pub no_work_notify_all : Shared I O E Q → List Waiting
  unfolding has_work
  no_work_notify_all s = if not (has_work s) then join_gate ∷ [] else []

  unfoldable pub referrer_is_cloning : Call I O E Q ℕ
  referrer_is_cloning =
      zoom (λ s. s.num_referrers) (λ s n. record s { num_referrers = n }) (Atomic.add 64 1)

  unfoldable pub referrer_is_dropping : Call I O E Q ℕ
  referrer_is_dropping =
      zoom (λ s. s.num_referrers) (λ s n. record s { num_referrers = n }) (Atomic.sub 64 1)

  -- `set_suspended`: whether the flag changed, and which gates are notified.
  abbrev pub set_suspended_notifying : Bool → Call I O E Q (Bool × List Waiting)
  set_suspended_notifying b s =
      let changed = differs s.suspended b in
      let answer : Bool × List Waiting =
        (changed, if changed && not b then resume_gate ∷ [] else []) in
      done answer (record s { suspended = b })

  unfoldable pub set_suspended : Bool → Call I O E Q Bool
  set_suspended b = do answer ← set_suspended_notifying b; pure answer.0

  -- `finish_task`: which gates are notified.
  abbrev pub finish_task_notifying : Bool → Call I O E Q (List Waiting)
  finish_task_notifying panicking = do
    prev ← on_num_tasks (Counter.decrement_right queue_bits 1)
    _ ← unwrap_result prev
    modify λ s. if panicking then record s { num_panics = (s.num_panics + 1) % 2 ^ 64 } else s
    read no_work_notify_all

  unfoldable pub finish_task : Bool → Call I O E Q (Unit {0})
  unfolding Counter.decrement_right
  finish_task panicking = do _ ← finish_task_notifying panicking; pure tt

  unfoldable pub add_core_affinity : Cores → Call I O E Q (Result Cores MutError)
  unfolding Atomic.try_update_with grown
  add_core_affinity new_cores = on_config (
      zoom (λ c. c.affinity) (λ c a. record c { affinity = a })
        (Atomic.try_update_with (grown new_cores)))

  unfoldable pub get_core_affinity : List Core → ℕ → Shared I O E Q → Option Core
  unfolding get_option Cores.get
  get_core_affinity known thread_index s = elim (get_option s.config.affinity) [
    | none ↦ none
    | some cores ↦ Cores.get known thread_index cores
  ]
