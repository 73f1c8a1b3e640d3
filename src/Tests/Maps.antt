-- ===== src/Tests/Maps.antt =====
-- Two inputs that two threads map, the second before the first; and a hive that runs dry.
use procpool.Common.{
  ℕ, ◌+◌, ◌≡◌, refl, [], ◌∷◌, List, none, some, true, false, Result, ok, err, arith,
}
use mathlib.Core.Option
use procpool.Common.Maps.{get}
use procpool.Common.{◌==◌, if◌then◌else◌, get_elem?}
use procpool.Bee.{fatal, Context, Unwind, returned, WorkerResult}
use procpool.Bee.Queen.{CloneQueen, clone_queen}
use procpool.Bee.Stock.{Callable, Closure, of, apply_once, apply_caller, or_fatal}
use procpool.Config.{Config}
use procpool.Hive.{join_waits}
use procpool.Hive.Submit.{send_task}
use procpool.Hive.Thread.{settle}
use procpool.Outcome.{Outcome, success, failure, from_worker_result}
use procpool.Outcome.Store.{Outcomes}
use procpool.Pool.{System, Step, init, receives, activates, settles, finishes}
use procpool.Pool.Mapped.{MapRun, opens, submits, works}
use procpool.Shared
use procpool.Shared.{Task, Shared, Channel, num_tasks, finish_task, has_work}
use procpool.Shared.Queue.{receive, activate}
use procpool.Shared.Tasks.{prepare_task, send_or_store_outcome, deliver, try_send_msg, sent_on}
use procpool.Tests.Samples.{config, task_of}
use procpool.Util
use procpool.Util.{try_map}
use procpool.Util.Laws.{Calls, TryCalls, map_config, map-all, try_map-all}

abbrev pub open_channels : ℕ → Channel ℕ ℕ ℕ
open_channels c = record { connected = true; sent = [] }

-- The state with this word in the counter, this next index and these tasks in the queue.
abbrev at : {Q : Type 0} → Config → Q → ℕ → ℕ → List (Task ℕ) → Shared ℕ ℕ ℕ Q
at c queen word next tasks = record (Shared.new c queen open_channels) {
  num_tasks = word;
  next_task_index = next;
  task_rx = tasks;
}

abbrev pub first : Task ℕ
first = task_of 7 0 (some 0)

abbrev pub second : Task ℕ
second = task_of 8 1 (some 0)

-- Both tasks are running.
abbrev both_running : {Q : Type 0} → Config → Q → System ℕ ℕ ℕ Q
both_running c queen = record (init c queen open_channels) {
  shared = at c queen 562949953421312 2 [];
  running = first ∷ second ∷ [];
  created = 1 ∷ 0 ∷ [];
}

-- Both are submitted, sent and received, and then made active.
received_both :
    {Q : Type 0} (queen : Q) (Does : ℕ → Context → Unwind (WorkerResult ℕ ℕ ℕ) → Type 0)
    (c : Config)
    → MapRun Does 0 2
        (init c queen open_channels)
        (7 ∷ 8 ∷ [])
        (record (init c queen open_channels) {
          shared = at c queen 2 2 [];
          received = second ∷ first ∷ [];
          created = 1 ∷ 0 ∷ [];
        })
unfolding Shared.new prepare_task send_task receive
received_both queen Does c =
    works
      (works
        (works
          (works (submits 8 second (submits 7 first opens refl) refl)
            (Step.sends (second ∷ []) [] first 0 refl refl) tt)
          (Step.sends [] [] second 1 refl refl) tt)
        (receives first (omega arith) refl) tt)
      (receives second (omega arith) refl) tt

pub running_both :
    {Q : Type 0} (queen : Q) (Does : ℕ → Context → Unwind (WorkerResult ℕ ℕ ℕ) → Type 0)
    (c : Config)
    → MapRun Does 0 2 (init c queen open_channels) (7 ∷ 8 ∷ []) (both_running c queen)
unfolding activate
running_both queen Does c =
    works (works (received_both queen Does c) (activates [] (first ∷ []) second refl refl) tt)
      (activates [] [] first refl refl) tt

-- Both are done, the second first, and their outcomes were sent.
abbrev pub both_done : {Q : Type 0} → Config → Q → Outcome ℕ ℕ ℕ → Outcome ℕ ℕ ℕ → System ℕ ℕ ℕ Q
both_done c queen o o' = record (init c queen open_channels) {
  shared = record (at c queen 0 2 []) {
    channels =
        sent_on 0 o (record (at c queen 0 2 []) { channels = sent_on 0 o' (at c queen 0 2 []) });
  };
  created = 1 ∷ 0 ∷ [];
  delivered = 0 ∷ 1 ∷ [];
}

-- Closures that add one, and that fail at 8.
abbrev add_one : Closure ℕ ℕ ℕ
add_one = record { code = λ n v. (n, returned (v + 1)); captured = 0 }

abbrev caller : CloneQueen (Callable (Closure ℕ ℕ ℕ))
caller = clone_queen (of add_one)

mapped :
    MapRun
      (Calls add_one)
      0
      2
      (init (map_config config 2) caller open_channels)
      (7 ∷ 8 ∷ [])
      (both_done (map_config config 2) caller (success 8 0) (success 9 1))
unfolding settle send_or_store_outcome deliver try_send_msg sent_on from_worker_result finish_task
    apply_caller of Shared.new
mapped =
    works
      (works
        (works
          (works (running_both caller (Calls add_one) (map_config config 2))
            (settles 0 (first ∷ []) [] second (ok 9) refl refl) (0, refl))
          (settles 0 [] [] first (ok 8) refl refl) (0, refl))
        (finishes false (omega arith) refl) tt)
      (finishes false (omega arith) refl) tt

mapped_idle :
    join_waits (both_done (map_config config 2) caller (success 8 0) (success 9 1)).shared ≡ false
unfolding join_waits has_work num_tasks Shared.new
mapped_idle = refl

map-all_example :
    Util.map
      (λ i. true)
      config
      open_channels
      0
      (λ t. success 9 1 ∷ success 8 0 ∷ [])
      2
      (7 ∷ 8 ∷ [])
      add_one
    ≡ some (8 ∷ 9 ∷ [])
unfolding sent_on Shared.new
map-all_example =
    map-all (λ i. true) (λ i. refl) config open_channels 0 refl refl 2 (omega arith) (7 ∷ 8 ∷ [])
      (omega arith) add_one (λ v. v + 1) (λ st v. refl)
      (both_done (map_config config 2) caller (success 8 0) (success 9 1)) mapped refl mapped_idle

abbrev fail_at_8 : ℕ → Result ℕ ℕ
fail_at_8 v = if v == 8 then err v else ok (v + 1)

abbrev add_one_or_fail : Closure ℕ ℕ (Result ℕ ℕ)
add_one_or_fail = record { code = λ n v. (n, returned (fail_at_8 v)); captured = 0 }

abbrev once_caller : CloneQueen (Callable (Closure ℕ ℕ (Result ℕ ℕ)))
once_caller = clone_queen (of add_one_or_fail)

tried :
    MapRun
      (TryCalls add_one_or_fail)
      0
      2
      (init (map_config config 2) once_caller open_channels)
      (7 ∷ 8 ∷ [])
      (both_done (map_config config 2) once_caller (success 8 0) (failure none 8 1))
unfolding settle send_or_store_outcome deliver try_send_msg sent_on from_worker_result finish_task
    apply_once of Shared.new or_fatal
tried =
    works
      (works
        (works
          (works (running_both once_caller (TryCalls add_one_or_fail) (map_config config 2))
            (settles 0 (first ∷ []) [] second (err (fatal none 8)) refl refl) (0, refl))
          (settles 0 [] [] first (ok 8) refl refl) (0, refl))
        (finishes false (omega arith) refl) tt)
      (finishes false (omega arith) refl) tt

tried_idle :
    join_waits (both_done (map_config config 2) once_caller (success 8 0) (failure none 8 1)).shared
    ≡ false
unfolding join_waits has_work num_tasks Shared.new
tried_idle = refl

try_map-all_example :
    (batch : Outcomes ℕ ℕ ℕ) × (try_map
        (λ i. true)
        config
        open_channels
        0
        (λ t. failure none 8 1 ∷ success 8 0 ∷ [])
        2
        (7 ∷ 8 ∷ [])
        add_one_or_fail
      ≡ some batch)
    × ((k : ℕ)
        → get k batch
          ≡ Option.map
              (λ v. from_worker_result (or_fatal (fail_at_8 v)) k)
              (get_elem? (7 ∷ 8 ∷ []) k))
unfolding sent_on Shared.new
try_map-all_example =
    try_map-all (λ i. true) (λ i. refl) config open_channels 0 refl refl 2 (omega arith)
      (7 ∷ 8 ∷ []) (omega arith) add_one_or_fail fail_at_8 (λ st v. refl)
      (both_done (map_config config 2) once_caller (success 8 0) (failure none 8 1)) tried refl
      tried_idle
