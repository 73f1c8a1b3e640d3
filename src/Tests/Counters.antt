-- ===== src/Tests/Counters.antt =====
-- Counters of three queued and two active tasks, delay queues and sets of cores.
use procpool.Common.{ℕ, ◌≡◌, refl, [], ◌∷◌, ok, err, done, arith, contains, true, List}
use procpool.Cores.{Core}
use procpool.Cores.Refresh.{Distinct}
use procpool.Counter
use procpool.Counter.{CounterError, right_underflow, left_overflow}
use procpool.Counter.Laws.{pack, operations-pack}
use procpool.Delay.{DelayQueue}

operations-pack_example :
    (Counter.increment_left 48 3 (pack 48 3 2) ≡ done (ok 3) (pack 48 6 2))
    × (Counter.decrement_right 48 3 (pack 48 3 2) ≡ done (err right_underflow) (pack 48 3 65535))
    × (Counter.transfer 48 3 (pack 48 3 2) ≡ done (ok (3, 2)) (pack 48 0 5))
operations-pack_example =
    operations-pack 48 (omega arith) (omega arith) 3 2 (omega arith) (omega arith) 3

abbrev delays : DelayQueue ℕ
delays =
    record { value = 1; until = 30 }
    ∷ record { value = 2; until = 10 }
    ∷ record { value = 3; until = 20 }
    ∷ []

abbrev cores_known : List Core
cores_known = record { id = 10; available = true } ∷ record { id = 11; available = true } ∷ []

known_apart : Distinct cores_known
unfolding contains
known_apart = (refl, (refl, tt))
