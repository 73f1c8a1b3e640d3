-- ===== src/Tests/Orders.antt =====
-- Stores in two orders of iteration; and inputs whose outcomes arrive in another order.
use mathlib.Core.List.{Perm}
use mathlib.Core.Option
use procpool.Common.{ℕ, ◌+◌, ◌≡◌, refl, [], ◌∷◌, List, true, false, ok, done, arith, get_elem?, not}
use procpool.Bee.{Context, Unwind, returned, WorkerResult}
use procpool.Atomic.{get_option}
use procpool.Common.Maps.{get}
use procpool.Common.SameEntries.{SameEntries}
use procpool.Hive.{join_waits}
use procpool.Hive.Blocking.{scan, map_unordered}
use procpool.Hive.Blocking.Laws.{given, expected, map_unordered-Perm, scan-all}
use procpool.Hive.Thread.{settle}
use procpool.Husk.Store.{husk_deref}
use procpool.Outcome.{Outcome, success, missing, unprocessed, from_worker_result, index}
use procpool.Outcome.Store.{
  Outcomes, count, remove_all, iter_unprocessed, iter_successes, iter_failures,
}
use procpool.Outcome.Store.Counts.{is_missing}
use procpool.Outcome.Store.Deref.{take_kinds, take_kinds-all}
use procpool.Outcome.Store.Order.{operations-SameEntries}
use procpool.Outcome.Store.Owned.{into_unprocessed}
use procpool.Outcome.Store.Removal.{IsStore, without}
use procpool.Pool.{init, settles, finishes}
use procpool.Pool.Mapped.{MapRun, works}
use procpool.Pool.Mapped.Tries.{last_result}
use procpool.Shared
use procpool.Shared.{Shared, has_work, num_tasks, finish_task}
use procpool.Shared.Tasks.{send_or_store_outcome, deliver, try_send_msg, sent_on}
use procpool.Shared.Teardown.{Husk}
use procpool.Tests.Maps.{open_channels, first, second, running_both, both_done}
use procpool.Tests.Samples.{config}

abbrev one_way : Outcomes ℕ ℕ ℕ
one_way = (1, success 9 1) ∷ (0, unprocessed 7 0) ∷ (2, missing 2) ∷ []

abbrev other_way : Outcomes ℕ ℕ ℕ
other_way = (2, missing 2) ∷ (0, unprocessed 7 0) ∷ (1, success 9 1) ∷ []

one_way-IsStore : IsStore one_way
unfolding get index
one_way-IsStore = record { unique = ground arith; indexed = ground arith }

other_way-IsStore : IsStore other_way
unfolding get index
other_way-IsStore = record { unique = ground arith; indexed = ground arith }

both_ways : SameEntries one_way other_way
unfolding get
both_ways k = ground arith

-- What `collect` has for a state.
abbrev some_state : ℕ
some_state = 0

operations-SameEntries_example :
    (count one_way ≡ count other_way)
    × (remove_all one_way ≡ remove_all other_way)
    × (into_unprocessed true one_way some_state ≡ into_unprocessed true other_way some_state)
operations-SameEntries_example =
    operations-SameEntries one_way other_way one_way-IsStore other_way-IsStore both_ways some_state

abbrev husk : Husk ℕ ℕ ℕ ℕ
husk = record { config = config; queen = 0; num_panics = 0; outcomes = one_way }

take_kinds-all_example :
    take_kinds husk
    ≡ done
        (iter_unprocessed one_way, iter_successes one_way, iter_failures one_way)
        (record husk { outcomes = without (λ o. not (is_missing o)) one_way })
take_kinds-all_example = take_kinds-all husk one_way-IsStore

abbrev queen : ℕ
queen = 0

-- Workers that add one.
abbrev add_one : ℕ → ℕ → WorkerResult ℕ ℕ ℕ
add_one v attempt = ok (v + 1)

abbrev Adds : ℕ → Context → Unwind (WorkerResult ℕ ℕ ℕ) → Type 0
Adds v ctx call = call ≡ returned (add_one v ctx.attempt)

mapped :
    MapRun Adds 0 2
      (init config queen open_channels)
      (7 ∷ 8 ∷ [])
      (both_done config queen (success 8 0) (success 9 1))
unfolding settle send_or_store_outcome deliver try_send_msg sent_on from_worker_result finish_task
    Shared.new
mapped =
    works
      (works
        (works
          (works (running_both queen Adds config)
            (settles 0 (first ∷ []) [] second (ok 9) refl refl) refl)
          (settles 0 [] [] first (ok 8) refl refl) refl)
        (finishes false (omega arith) refl) tt)
      (finishes false (omega arith) refl) tt

mapped_idle : join_waits (both_done config queen (success 8 0) (success 9 1)).shared ≡ false
unfolding join_waits has_work num_tasks Shared.new
mapped_idle = refl

map_unordered-Perm_example :
    (os : List (Outcome ℕ ℕ ℕ)) × (map_unordered 0
        (λ t. success 9 1 ∷ success 8 0 ∷ [])
        (7 ∷ 8 ∷ [])
        (Shared.new config queen open_channels)
      ≡ done os (given config queen open_channels 0 (7 ∷ 8 ∷ [])))
    × Perm os (expected add_one config (7 ∷ 8 ∷ []))
unfolding sent_on Shared.new get_option
map_unordered-Perm_example =
    map_unordered-Perm add_one Adds (λ v ctx call does. does) 0 2 (omega arith) config (omega arith)
      queen open_channels refl refl (7 ∷ 8 ∷ []) (omega arith)
      (both_done config queen (success 8 0) (success 9 1)) mapped refl mapped_idle

-- A closure that sums the items and makes an input of each.
abbrev summing : ℕ → ℕ → ℕ × ℕ
summing sum item = (sum + item, item)

scan-all_example :
    (batch : Outcomes ℕ ℕ ℕ) × (scan 0
        (λ t. success 9 1 ∷ success 8 0 ∷ [])
        (7 ∷ 8 ∷ [])
        0
        summing
        (Shared.new config queen open_channels)
      ≡ done (batch, 15) (given config queen open_channels 0 (7 ∷ 8 ∷ [])))
    × ((k : ℕ)
        → get k batch
          ≡ Option.map
              (λ v. from_worker_result (last_result add_one 3 v 0) k)
              (get_elem? (7 ∷ 8 ∷ []) k))
unfolding sent_on Shared.new get_option
scan-all_example =
    scan-all add_one Adds (λ v ctx call does. does) 0 2 (omega arith) config (omega arith) queen
      open_channels refl refl summing (7 ∷ 8 ∷ []) 0 (omega arith)
      (both_done config queen (success 8 0) (success 9 1)) mapped refl mapped_idle
