-- ===== src/Pool/Closing/Leaves.antt =====
-- src/hive/shared.rs and src/hive/hive.rs: what the counter's operations leave alone, also where they
-- fail or panic.
use procpool.Common.{◌≡◌, subst, Exec, done, Bool, true, ok, err, state_after, arith}
use procpool.Hive.Thread.{exit_thread, drop_sentinel}
use procpool.Shared.{Task, Shared, finish_task}
use procpool.Shared.Queue.{activate, receive, ends, disconnected}

module _ {ℓ} {I O E Q : Type ℓ} where
  pub record Leaves (s t : Shared I O E Q) : Type ℓ where
    pub tasks : t.task_rx ≡ s.task_rx
    pub retries : t.retry_queue ≡ s.retry_queue
    pub suspended : t.suspended ≡ s.suspended

  pub after {κ} :
      {A : Type κ} {s : Shared I O E Q} {m n : Exec (Shared I O E Q) A}
      → Leaves s (state_after m)
      → m ≡ n
      → Leaves s (state_after n)
  after {s = s} h e = subst (λ m. Leaves s (state_after m)) e h

  pub hung_up-same :
      (s t : Shared I O E Q) → receive true s ≡ done (ends (err disconnected)) t → t ≡ s
  unfolding receive
  hung_up-same s t e = ground arith

  pub finish_task-Leaves :
      (panicking : Bool) (s : Shared I O E Q) → Leaves s (state_after (finish_task panicking s))
  unfolding finish_task
  finish_task-Leaves panicking s = record {
    tasks = ground arith;
    retries = ground arith;
    suspended = ground arith;
  }

  pub exit_thread-Leaves : (s : Shared I O E Q) → Leaves s (state_after (exit_thread s))
  unfolding exit_thread drop_sentinel finish_task
  exit_thread-Leaves s = record {
    tasks = ground arith;
    retries = ground arith;
    suspended = ground arith;
  }

  pub activate-Leaves :
      (x : Task I) (s : Shared I O E Q) → Leaves s (state_after (activate (ends (ok x)) s))
  unfolding activate
  activate-Leaves x s = record {
    tasks = ground arith;
    retries = ground arith;
    suspended = ground arith;
  }
