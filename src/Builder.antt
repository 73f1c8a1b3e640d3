-- ===== src/Builder.antt =====
-- src/hive/builder.rs: a `Builder` is a `Config` with a setter for each option, with the features
-- `retry` and `affinity`. `num_cpus` is the number that `num_cpus::get` returns.
use Prim.Native.String.{String}
use procpool.Common.{ℕ, none, some, ◌==◌, if◌then◌else◌}
use procpool.Atomic.{get_option, set_option}
use procpool.Cores.{Cores}
use procpool.Cores
use procpool.Config.{
  Config, empty, with_defaults, set_num_threads, set_max_retries, set_retry_factor_from,
}

abbrev pub Builder : Type 0
Builder = Config

unfoldable pub new : Builder
unfolding empty
new = empty

-- `Builder::default`, on the global defaults
unfoldable pub default : Config → Builder
unfolding with_defaults
default defaults = with_defaults defaults

unfoldable pub num_threads : ℕ → Builder → Builder
unfolding set_num_threads
num_threads num b = set_num_threads (some num) b

unfoldable pub with_default_num_threads : Config → Builder → Builder
unfolding set_num_threads get_option
with_default_num_threads defaults b = set_num_threads (get_option defaults.num_threads) b

unfoldable pub with_thread_per_core : ℕ → Builder → Builder
unfolding set_num_threads
with_thread_per_core num_cpus b = set_num_threads (some num_cpus) b

unfoldable pub thread_name : String → Builder → Builder
unfolding set_option
thread_name name b = record b { thread_name = (set_option (some name) b.thread_name).1 }

unfoldable pub thread_stack_size : ℕ → Builder → Builder
unfolding set_option
thread_stack_size size b = record b {
  thread_stack_size = (set_option (some size) b.thread_stack_size).1;
}

unfoldable pub thread_affinity : Cores → Builder → Builder
unfolding set_option
thread_affinity cores b = record b { affinity = (set_option (some cores) b.affinity).1 }

unfoldable pub with_default_thread_affinity : ℕ → Builder → Builder
unfolding set_option Cores.all
with_default_thread_affinity num_cpus b = record b {
  affinity = (set_option (some (Cores.all num_cpus)) b.affinity).1;
}

unfoldable pub max_retries : ℕ → Builder → Builder
unfolding set_max_retries
max_retries limit b = if limit == 0 then set_max_retries none b else set_max_retries (some limit) b

unfoldable pub retry_factor : ℕ → Builder → Builder
unfolding set_option set_retry_factor_from
retry_factor nanos b =
    if nanos == 0
    then record b { retry_factor = (set_option none b.retry_factor).1 }
    else set_retry_factor_from nanos b

unfoldable pub with_default_retries : Config → Builder → Builder
unfolding set_option set_max_retries get_option
with_default_retries defaults b = record (set_max_retries (get_option defaults.max_retries) b) {
  retry_factor = (set_option (get_option defaults.retry_factor) b.retry_factor).1;
}

unfoldable pub with_no_retries : Builder → Builder
unfolding max_retries retry_factor
with_no_retries b = retry_factor 0 (max_retries 0 b)
