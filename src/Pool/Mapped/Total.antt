-- ===== src/Pool/Mapped/Total.antt =====
-- src/hive/hive.rs, `map`: a run in which a client submits its inputs and the worker threads do them.
use mathlib.Core.List.{append_assoc, append-nil}
use procpool.Common.{
  ℕ, ◌+◌, ◌^◌, ◌<◌, ◌≤◌, ◌≡◌, refl, sym, ap, ◌∙◌, subst, List, [], ◌∷◌, ◌++◌, length, length-append,
  some, false, Option, done, arith, state_after,
}
use procpool.Bee.{Context, Unwind, returned, WorkerResult, hive_suspended, new_context}
use procpool.Config.{Config}
use procpool.Hive.{join_waits}
use procpool.Pool.{
  System, Step, init, prepares, reserves, makes, pops, finds_none, receives, activates, settles,
  unwinds, retry_panics, finishes, suspends, clones, drops_clone, takes_stored, takes_unprocessed,
}
use procpool.Pool.Counts.{Counts, increment_word}
use procpool.Pool.Frames.{prepare_task-Same}
use procpool.Pool.Invariant.{Reach-Inv}
use procpool.Pool.Mapped.{MapRun, opens, submits, works, Answers, MapRun-Reach}
use procpool.Pool.Mapped.Tries.{allowed}
use procpool.Pool.Notify.{prepare_task-rest}
use procpool.Pool.Progress.{drains}
use procpool.Pool.Works.{Onwards, Serves, rests, serves, undone}
use procpool.Shared.{Channel, Shared, new}
use procpool.Shared.Tasks.{prepare_task, new_task}

module _ {ℓ} {I O E Q : Type ℓ} where
  prepare_task_total :
      {queued active : ℕ} (input : I) (tx : Option ℕ) (s : Shared I O E Q)
      → Counts s queued active
      → queued + 1 < 2 ^ 48
      → (t : Shared I O E Q) × (prepare_task input tx s
          ≡ done (new_task input (new_context s.next_task_index hive_suspended) tx) t)
  unfolding prepare_task
  prepare_task_total input tx s c room =
      (state_after (prepare_task input tx s), ground (arith, increment_word c 1))

module _ {ℓ} {I O E Q : Type ℓ} (work : I → ℕ → WorkerResult I O E)
    (Does : I → Context → Unwind (WorkerResult I O E) → Type ℓ)
    (does : (v : I) (ctx : Context) → Does v ctx (returned (work v ctx.attempt))) (c : ℕ) where
  Onwards-Does :
      {threads : ℕ} {s t : System I O E Q} (step : Step threads s t)
      → Onwards work step
      → Answers Does c threads step
  Onwards-Does (prepares _ _ _ _) a = absurd (a.0)
  Onwards-Does (reserves _ _ _) a = absurd (a.0)
  Onwards-Does (makes _ _ _ _ _ _) a = absurd (a.0)
  Onwards-Does (Step.sends _ _ _ _ _ _) a = a
  Onwards-Does (pops _ _ _ _) a = a
  Onwards-Does (finds_none _ _) a = a
  Onwards-Does (receives _ _ _) a = a
  Onwards-Does (activates _ _ _ _ _) a = a
  Onwards-Does (settles _ _ _ x result _ _) a =
      subst (Does x.input x.ctx) (sym a) (does x.input x.ctx)
  Onwards-Does (unwinds _ _ _ _) (payload, a) = absurd (cc)
  Onwards-Does (retry_panics _ _ x _ _ _ _ _) a =
      subst (Does x.input x.ctx) (sym a) (does x.input x.ctx)
  Onwards-Does (finishes _ _ _) a = a
  Onwards-Does (suspends _ _ _) a = absurd (a.0)
  Onwards-Does (clones _ _) a = absurd (a.0)
  Onwards-Does (drops_clone _ _ _) a = absurd (a.0)
  Onwards-Does (takes_stored _ _) a = absurd (a.0)
  Onwards-Does (takes_unprocessed _ _) a = absurd (a.0)

  Serves-MapRun :
      {threads : ℕ} {first s t : System I O E Q} {inputs : List I}
      → Serves work threads s t
      → MapRun Does c threads first inputs s
      → MapRun Does c threads first inputs t
  Serves-MapRun rests run = run
  Serves-MapRun (serves before step a) run =
      works (Serves-MapRun before run) step (Onwards-Does step a)

  module _ {threads : ℕ} (small : threads < 2 ^ 16) (config : Config) (queen : Q)
      (channels : ℕ → Channel I O E) where
    -- The inputs so far were submitted, and nothing else was done.
    record Submitted (inputs : List I) (s : System I O E Q) : Type (ℓ + 1) where
      pub run : MapRun Does c threads (init config queen channels) inputs s
      pub no_batch : s.reserved ≡ []
      pub awake : s.shared.suspended ≡ false
      pub limited : allowed s.shared.config ≡ allowed config
      pub all : undone s ≡ length inputs

    submits_one :
        (inputs : List I) (input : I) (s : System I O E Q)
        → Submitted inputs s
        → length inputs + 1 < 2 ^ 48
        → (t : System I O E Q) × Submitted (inputs ++ input ∷ []) t
    submits_one inputs input s before few =
        let i = Reach-Inv small config queen channels s (MapRun-Reach Does c threads before.run) in
        let all = before.all in
        let (t, e) = prepare_task_total input (some c) s.shared i.counts (omega arith) in
        let (same, same_input, same_tx, first_try) =
          prepare_task-Same s.shared t input (some c) _ e in
        let (same_waiting, up) = prepare_task-rest s.shared t input (some c) _ e in
        (
          _,
          record {
            run = submits input _ before.run e;
            no_batch = before.no_batch;
            awake = up ∙ before.awake;
            limited = ap allowed same.config ∙ before.limited;
            all = omega (arith, all, same_waiting, length-append inputs (input ∷ []));
          },
        )

    submits_all :
        (inputs rest : List I) (s : System I O E Q)
        → Submitted inputs s
        → length inputs + length rest < 2 ^ 48
        → (t : System I O E Q) × Submitted (inputs ++ rest) t
    submits_all inputs [] s before few =
        (s, subst (λ is. Submitted is s) (sym (append-nil inputs)) before)
    submits_all inputs (v ∷ vs) s before few =
        let (u, one) = submits_one inputs v s before (omega arith) in
        let (t, all) =
          submits_all (inputs ++ v ∷ []) vs u one (omega (arith, length-append inputs (v ∷ []))) in
        (t, subst (λ is. Submitted is t) (append_assoc inputs (v ∷ []) vs) all)

    -- A hive with at least one thread, with a limit of at most 64 retries, can do all that a client maps
    -- over: the inputs can be submitted, and the worker threads can then bring the hive to a state in
    -- which `join` does not wait, whatever results the workers return for the inputs and attempts. There
    -- are less than 2^16 threads and less than 2^48 inputs.
    pub map-drains :
        0 < threads
        → allowed config ≤ 64
        → (inputs : List I) → length inputs < 2 ^ 48
        → (s : System I O E Q) × MapRun Does c threads (init config queen channels) inputs s
          × (s.shared.suspended ≡ false)
          × (join_waits s.shared ≡ false)
    unfolding new
    map-drains some_thread few_tries inputs few =
        let (s, submitted) =
          submits_all [] inputs (init config queen channels)
            (record { run = opens; no_batch = refl; awake = refl; limited = refl; all = refl })
            (omega arith) in
        let limited = submitted.limited in
        let all = submitted.all in
        let (t, run, idle, awake) =
          drains work small some_thread config queen channels s
            (MapRun-Reach Does c threads submitted.run) submitted.no_batch submitted.awake
            (omega arith) (omega arith) in
        (t, Serves-MapRun run submitted.run, awake, idle)
