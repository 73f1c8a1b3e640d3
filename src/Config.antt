-- ===== src/Config.antt =====
-- src/hive/config.rs and the setters of src/hive/builder.rs, with the features `retry` and
-- `affinity`. The global defaults are a `Config` that the functions take and return.
pub mod Laws
use Prim.Native.String.{String}
use procpool.Common.{ℕ, ◌+◌, ◌*◌, ◌%◌, ◌^◌, Option, none, some}
use procpool.Atomic.{
  AtomicOption, get_option, set_option, into_sync, into_sync_default, into_unsync,
}
use procpool.Cores.{Cores}

pub record Config : Type 0 where
  pub num_threads : AtomicOption ℕ
  pub thread_name : AtomicOption String
  pub thread_stack_size : AtomicOption ℕ
  pub max_retries : AtomicOption ℕ
  pub retry_factor : AtomicOption ℕ
  pub affinity : AtomicOption Cores

-- `Config::empty`, and `Builder::new`
unfoldable pub empty : Config
empty = record {
  num_threads = AtomicOption.unsync none;
  thread_name = AtomicOption.unsync none;
  thread_stack_size = AtomicOption.unsync none;
  max_retries = AtomicOption.unsync none;
  retry_factor = AtomicOption.unsync none;
  affinity = AtomicOption.unsync none;
}

abbrev pub default_num_threads : ℕ
default_num_threads = 4

abbrev pub default_max_retries : ℕ
default_max_retries = 3

abbrev pub nanos_per_sec : ℕ
nanos_per_sec = 1_000_000_000

abbrev pub default_retry_factor : ℕ
default_retry_factor = 1 * nanos_per_sec

unfoldable pub set_num_threads : Option ℕ → Config → Config
unfolding set_option
set_num_threads n c = record c { num_threads = (set_option n c.num_threads).1 }

unfoldable pub set_max_retries : Option ℕ → Config → Config
unfolding set_option
set_max_retries n c = record c { max_retries = (set_option n c.max_retries).1 }

-- A duration is a number of nanoseconds; the cast to `u64` wraps.
unfoldable pub set_retry_factor_from : ℕ → Config → Config
unfolding set_option
set_retry_factor_from nanos c = record c {
  retry_factor = (set_option (some (nanos % 2 ^ 64)) c.retry_factor).1;
}

unfoldable pub set_retry_const_defaults : Config → Config
unfolding set_option set_max_retries
set_retry_const_defaults c = record (set_max_retries (some default_max_retries) c) {
  retry_factor = (set_option (some default_retry_factor) c.retry_factor).1;
}

unfoldable pub set_const_defaults : Config → Config
unfolding set_num_threads set_retry_const_defaults
set_const_defaults c = set_retry_const_defaults (set_num_threads (some default_num_threads) c)

-- The initial value of `DEFAULTS`.
unfoldable pub initial_defaults : Config
unfolding empty set_const_defaults
initial_defaults = set_const_defaults empty

-- On `DEFAULTS`: `set_num_threads_default`, `set_num_threads_default_all`, `set_max_retries_default`,
-- `set_retries_default_disabled`, `set_retry_factor_default` and `reset_defaults`
unfoldable pub set_num_threads_default : ℕ → Config → Config
unfolding set_num_threads
set_num_threads_default n defaults = set_num_threads (some n) defaults

unfoldable pub set_num_threads_default_all : ℕ → Config → Config
unfolding set_num_threads_default
set_num_threads_default_all num_cpus defaults = set_num_threads_default num_cpus defaults

unfoldable pub set_max_retries_default : ℕ → Config → Config
unfolding set_max_retries
set_max_retries_default n defaults = set_max_retries (some n) defaults

unfoldable pub set_retries_default_disabled : Config → Config
unfolding set_max_retries_default
set_retries_default_disabled defaults = set_max_retries_default 0 defaults

unfoldable pub set_retry_factor_default : ℕ → Config → Config
unfolding set_retry_factor_from
set_retry_factor_default nanos defaults = set_retry_factor_from nanos defaults

unfoldable pub reset_defaults : Config → Config
unfolding set_const_defaults
reset_defaults defaults = set_const_defaults defaults

-- `Config::with_defaults`, and `Builder::default`
unfoldable pub with_defaults : Config → Config
with_defaults defaults = defaults

unfoldable pub into_sync_config : Config → Config
unfolding into_sync into_sync_default
into_sync_config c = record {
  num_threads = into_sync_default 0 c.num_threads;
  thread_name = into_sync c.thread_name;
  thread_stack_size = into_sync c.thread_stack_size;
  max_retries = into_sync c.max_retries;
  retry_factor = into_sync c.retry_factor;
  affinity = into_sync c.affinity;
}

unfoldable pub into_unsync_config : Config → Config
unfolding into_unsync
into_unsync_config c = record {
  num_threads = into_unsync c.num_threads;
  thread_name = into_unsync c.thread_name;
  thread_stack_size = into_unsync c.thread_stack_size;
  max_retries = into_unsync c.max_retries;
  retry_factor = into_unsync c.retry_factor;
  affinity = into_unsync c.affinity;
}
