-- ===== src/Shared/Teardown.antt =====
-- src/hive/shared.rs: stored outcomes, poisoning, and the end of a hive.
pub mod Drain
pub mod Dropped
pub mod Taken
use procpool.Common.{
  ℕ, List, [], ◌∷◌, map, Option, none, some, Bool, true, false, if◌then◌else◌, filter, Exec, done,
  ◌>>=◌, ◌>>◌, pure, modify, zoom,
}
use procpool.Common.Maps.{get, keys}
use procpool.Config.{Config, into_unsync_config}
use procpool.Delay.{drain}
use procpool.Outcome.{Outcome, is_unprocessed}
use procpool.Outcome.Store.{Outcomes, remove_each}
use procpool.Shared.{Task, Shared, Call}
use procpool.Shared.Tasks.{send_or_store}

pub record Husk {ℓ} (I O E Q : Type ℓ) : Type ℓ where
  pub config : Config
  pub queen : Q
  pub num_panics : ℕ
  pub outcomes : Outcomes I O E

module _ {ℓ} {I O E : Type ℓ} where
  -- The keys whose outcome is unprocessed.
  unfoldable pub unprocessed_keys : Outcomes I O E → List ℕ
  unfolding filter get is_unprocessed
  unprocessed_keys m =
      filter (λ i. elim (get i m) [ none ↦ false | some o ↦ is_unprocessed o ]) (keys m)

module _ {ℓ} {I O E Q : Type ℓ} where
  unfoldable pub take_outcomes : Call I O E Q (Outcomes I O E)
  take_outcomes s = done s.outcomes (record s { outcomes = [] })

  abbrev pub on_outcomes {κ} :
      {A : Type κ} → (Outcomes I O E → Exec (Outcomes I O E) A) → Call I O E Q A
  on_outcomes m = zoom (λ s. s.outcomes) (λ s m. record s { outcomes = m }) m

  unfoldable pub take_unprocessed : Call I O E Q (List (Outcome I O E))
  unfolding unprocessed_keys remove_each
  take_unprocessed = do
    taken ← on_outcomes (λ m. remove_each (λ o. pure o) (unprocessed_keys m) m)
    pure (map (λ e. e.1) taken)

  -- `try_iter` on the queue of tasks, and `drain` on the retry queue
  abbrev pub take_tasks : Call I O E Q (List (Task I))
  take_tasks s = done s.task_rx (record s { task_rx = [] })

  abbrev pub take_retries : Call I O E Q (List (Task I))
  take_retries s = let (ts, q) = drain s.retry_queue in done ts (record s { retry_queue = q })

  unfoldable pub drain_tasks_into_unprocessed : Call I O E Q (Unit {0})
  unfolding send_or_store drain
  drain_tasks_into_unprocessed = do
    queued ← take_tasks
    send_or_store queued
    retries ← take_retries
    send_or_store retries

  unfoldable pub poison : Call I O E Q (Unit {0})
  unfolding drain_tasks_into_unprocessed
  poison = do modify λ s. record s { poisoned = true }; drain_tasks_into_unprocessed

  unfoldable pub try_into_husk : Call I O E Q (Husk I O E Q)
  unfolding drain_tasks_into_unprocessed into_unsync_config
  try_into_husk = do
    drain_tasks_into_unprocessed
    λ s.
        done
          (record {
            config = into_unsync_config s.config;
            queen = s.queen;
            num_panics = s.num_panics;
            outcomes = s.outcomes;
          })
          s
