-- ===== src/Pool/Progress.antt =====
-- src/hive/hive.rs and src/hive/shared.rs: how the worker threads bring a hive to the state in which
-- `join` returns.
use procpool.Common.{refl, ◌≤◌, ℕ, zero, suc, ◌+◌, ◌^◌, ◌<◌, ◌≡◌, inl, inr, [], false, arith}
use procpool.Bee.{WorkerResult}
use procpool.Config.{Config}
use procpool.Hive.{join_waits}
use procpool.Pool.{System, Step, Reach, init, later}
use procpool.Pool.Mapped.Tries.{allowed}
use procpool.Shared.{Channel}
use procpool.Pool.Moves.{join_waits-Onward}
use procpool.Pool.Works.{Onwards, steps_left, undone, Serves, rests, serves}

module _ {ℓ} {I O E Q : Type ℓ} where
  module _ (work : I → ℕ → WorkerResult I O E) {threads : ℕ} where
    Serves-first :
        {s t u : System I O E Q} (step : Step threads s t)
        → Onwards work step
        → Serves work threads t u
        → Serves work threads s u
    Serves-first step a rests = serves rests step a
    Serves-first step a (serves run last b) = serves (Serves-first step a run) last b

  module _ (work : I → ℕ → WorkerResult I O E) {threads : ℕ} (small : threads < 2 ^ 16)
      (some_thread : 0 < threads) (config : Config) (queen : Q) (channels : ℕ → Channel I O E) where
    -- What a run of the worker threads comes to.
    abbrev Drained : System I O E Q → Type (ℓ + 1)
    Drained s =
        (t : System I O E Q) × Serves work threads s t
        × (join_waits t.shared ≡ false)
        × (t.shared.suspended ≡ false)

    drains_within :
        (limit n : ℕ) (s : System I O E Q)
        → Reach threads (init config queen channels) s
        → s.reserved ≡ []
        → s.shared.suspended ≡ false
        → limit ≤ 64
        → allowed s.shared.config ≡ limit
        → undone s < 2 ^ 48
        → steps_left limit s < n
        → Drained s
    drains_within limit zero s r no_batch awake few_tries limited room few = absurd (omega arith)
    drains_within limit (suc n) s r no_batch awake few_tries limited room few =
        elim (join_waits-Onward work limit small some_thread config queen channels s r no_batch
          awake few_tries limited room) [
            | inr idle ↦ (s, rests, idle, awake)
            | inl go ↦
                let fewer = go.fewer in
                let no_more = go.no_more in
                let (t, run, idle, up) =
                  drains_within limit n go.next (later r go.step) go.no_batch go.awake few_tries
                    go.limited (omega arith) (omega arith) in
                (t, Serves-first work go.step go.answers run, idle, up)
          ]

    -- No deadlock: from every state that the steps of a hive with 1 to 2^16 - 1 threads reach, in which
    -- it is not suspended, no client is in the middle of a batch, and less than 2^48 tasks are not done,
    -- the worker threads can bring it to a state in which `join` does not wait, whatever results the
    -- workers return for their inputs and attempts, retryable ones included. All that the clients have
    -- to do is to send the tasks that they have prepared; they do nothing else, and where no task is
    -- prepared they do nothing. The hive's limit of retries is at most 64.
    pub drains :
        (s : System I O E Q)
        → Reach threads (init config queen channels) s
        → s.reserved ≡ []
        → s.shared.suspended ≡ false
        → allowed s.shared.config ≤ 64
        → undone s < 2 ^ 48
        → (t : System I O E Q) × Serves work threads s t
          × (join_waits t.shared ≡ false)
          × (t.shared.suspended ≡ false)
    drains s r no_batch awake few_tries room =
        let limit = allowed s.shared.config in
        drains_within limit (steps_left limit s + 1) s r no_batch awake few_tries refl room
          (omega arith)
