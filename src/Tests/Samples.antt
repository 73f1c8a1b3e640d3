-- ===== src/Tests/Samples.antt =====
-- A hive with three queued tasks, for the tests.
use procpool.Common.{ℕ, refl, [], ◌∷◌, Option, none, some, false, ◌==◌, arith}
use procpool.Atomic.{AtomicOption}
use procpool.Bee.{hive_suspended}
use procpool.Config.{Config}
use procpool.Pool.Counts.{Counts}
use procpool.Shared.{Task, Channel, Shared}

abbrev pub config : Config
config = record {
  num_threads = AtomicOption.sync (some 2);
  thread_name = AtomicOption.sync none;
  thread_stack_size = AtomicOption.sync none;
  max_retries = AtomicOption.sync (some 3);
  retry_factor = AtomicOption.sync (some 10);
  affinity = AtomicOption.sync none;
}

-- Only the channel 1 has a receiver.
abbrev pub channels : ℕ → Channel ℕ ℕ ℕ
channels c = record { connected = c == 1; sent = [] }

abbrev pub task_of : ℕ → ℕ → Option ℕ → Task ℕ
task_of input index tx = record {
  input = input;
  ctx = record { index = index; cancelled = hive_suspended; attempt = 0 };
  outcome_tx = tx;
}

-- Three queued tasks, one for a channel with a receiver and one for a channel without.
abbrev pub three_queued : Shared ℕ ℕ ℕ ℕ
three_queued = record {
  config = config;
  queen = 0;
  task_rx = task_of 10 0 none ∷ task_of 11 1 (some 1) ∷ [];
  num_tasks = 3;
  next_task_index = 3;
  num_panics = 0;
  num_referrers = 1;
  poisoned = false;
  suspended = false;
  outcomes = [];
  retry_queue = record { value = task_of 12 2 (some 2); until = 50 } ∷ [];
  next_retry = some 50;
  channels = channels;
}

pub three_queued-Counts : Counts three_queued 3 0
three_queued-Counts = record { word = refl; queued_fits = omega arith; active_fits = omega arith }
