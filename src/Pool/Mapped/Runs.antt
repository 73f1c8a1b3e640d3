-- ===== src/Pool/Mapped/Runs.antt =====
-- src/hive/hive.rs, `map` and `execute`: the runs of a client that submits inputs.
use procpool.Common.{
  ap, ℕ, ◌+◌, sym, Bool-cases, inl, inr, if◌then◌else◌, ◌-◌, ◌^◌, ◌≤◌, ◌≡◌, refl, List, [], ◌∷◌,
  ◌++◌, length, length-append, none, some, true, done, panicked, subst, ◌⊎◌, ◌<◌, err, arith,
}
use procpool.Bee.{Unwind, returned, unwound, Context, WorkerResult, retryable, inc_attempt}
use procpool.Config.{Config}
use procpool.Hive.Thread.{settle}
use procpool.Pool.{
  System, Step, init, is_requeued, prepares, reserves, makes, pops, finds_none, receives, activates,
  settles, unwinds, retry_panics, finishes, suspends, clones, drops_clone, takes_stored,
  takes_unprocessed,
}
use procpool.Pool.Frames.{
  prepare_task-Same, send_task-tasks, receive-tasks, activate-Same, finish_task-Same,
  pop_retry-tasks, Final,
}
use procpool.Pool.Totals.{retry_delay_total}
use procpool.Shared.Retry.{can_retry, retry_delay}
use procpool.Pool.Issued.{prepare_task-next}
use procpool.Pool.Mapped.{MapRun, opens, submits, works, Answers, MapRun-Reach}
use procpool.Pool.Mapped.Invariant.{Mapped, submits-Mapped, Same-Mapped}
use procpool.Pool.Mapped.Moved.{
  sends-Mapped, receives-Mapped, activates-Mapped, pops-Mapped, finds_none-Mapped,
}
use procpool.Pool.Mapped.Tries.{allowed, can_retry-allowed, is_requeued-retryable, try_pop-left}
use procpool.Pool.Once.{Reach-Issued}
use procpool.Shared.{
  Task, Channel, Shared, set_suspended, referrer_is_cloning, referrer_is_dropping, new,
}
use procpool.Shared.Teardown.{take_outcomes}
use procpool.Pool.Mapped.Settled.{settles-Mapped, tries-Mapped}
use procpool.Shared.Teardown.Taken.{take_unprocessed-only}

returned-inj {ℓ} : {A : Type ℓ} {a b : A} → returned a ≡ returned b → a ≡ b
returned-inj e = cc

module _ {ℓ} {I O E Q : Type ℓ} where
  -- Up to a limit of 64 retries, the delay of a retry does not panic.
  delay_panics :
      (ctx : Context) (s : Shared I O E Q)
      → can_retry ctx s ≡ true
      → allowed s.config ≤ 64
      → retry_delay (inc_attempt ctx) s ≡ panicked s
      → ⊥
  unfolding inc_attempt
  delay_panics ctx s again few_tries over =
      let more : ctx.attempt < allowed s.config = ground (arith, can_retry-allowed ctx s) in
      let (d, e) = retry_delay_total (inc_attempt ctx) s (omega arith) (omega arith) in ground arith

module _ {ℓ} {I O E Q : Type ℓ} (work : I → ℕ → WorkerResult I O E) (limit c : ℕ) where
  module _ (Does : I → Context → Unwind (WorkerResult I O E) → Type ℓ)
      (steady : (v : I) (ctx : Context) (call : Unwind (WorkerResult I O E))
        → Does v ctx call
        → call ≡ returned (work v ctx.attempt))
      (calm : (v : I) (a : ℕ) → Final (work v a) ⊎ (limit ≤ 64)) where
    settled :
        {inputs : List I} {s : System I O E Q}
        → Mapped work limit c inputs s
        → (now : ℕ) (t : Shared I O E Q) (pre post : List (Task I)) (x : Task I)
          (result : WorkerResult I O E)
        → s.running ≡ pre ++ x ∷ post
        → result ≡ work x.input x.ctx.attempt
        → settle now x.ctx x.outcome_tx result s.shared ≡ done tt t
        → Mapped work limit c inputs (record s {
          shared = t;
          running = pre ++ post;
          finishing = s.finishing + 1;
          delivered =
              if is_requeued x.ctx result s.shared then s.delivered else x.ctx.index ∷ s.delivered;
        })
    settled {s = s} m now t pre post x result split answer e =
        elim (Bool-cases (is_requeued x.ctx result s.shared)) [
          | inr stops ↦
              rw stops
                (settles-Mapped work limit c m now t pre post x split result (sym answer) e stops)
          | inl again ↦
              let (input, error, is_retryable, can) =
                is_requeued-retryable x.ctx result s.shared again in
              rw again (
                tries-Mapped work limit c m now t pre post x split result (sym answer) e input error
                  is_retryable can)
        ]

    works-Mapped :
        {threads : ℕ} {inputs : List I} {s t : System I O E Q}
        → Mapped work limit c inputs s
        → (step : Step threads s t) → Answers Does c threads step
        → Mapped work limit c inputs t
    unfolding set_suspended referrer_is_cloning referrer_is_dropping take_outcomes
    works-Mapped m (prepares input tx x e) a = absurd (a.0)
    works-Mapped m (reserves n indices e) a = absurd (a.0)
    works-Mapped m (makes pre post i input tx split) a = absurd (a.0)
    works-Mapped {s = s} m (Step.sends {t} pre post x i split e) a =
        sends-Mapped work limit c m t pre post x split (send_task-tasks s.shared t x i e)
    works-Mapped {s = s} m (pops {t} now x room e) a =
        let (tasks, mail, config, queue) = pop_retry-tasks s.shared t now (some x) e in
        elim queue [
          | inl none_there ↦ absurd (cc none_there.0)
          | inr popped ↦ pops-Mapped work limit c m t now x (tasks, mail, config) popped
        ]
    works-Mapped {s = s} m (finds_none {t} now e) a =
        let (tasks, mail, config, queue) = pop_retry-tasks s.shared t now none e in
        finds_none-Mapped work limit c m t (tasks, mail, config)
          (elim queue [
            | inl none_there ↦ none_there.1
            | inr none_popped ↦ try_pop-left now s.shared.retry_queue t.retry_queue none_popped
          ])
    works-Mapped {s = s} m (receives {t} x room e) a =
        receives-Mapped work limit c m t x (receive-tasks s.shared t x e)
    works-Mapped {s = s} m (activates {t} pre post x split e) a =
        activates-Mapped work limit c m t pre post x split (activate-Same s.shared t x e)
    works-Mapped {inputs = inputs} {s = s} m (settles {t} now pre post x result split e) a =
        settled m now t pre post x result split
          (returned-inj (steady x.input x.ctx (returned result) a)) e
    works-Mapped m (unwinds pre post x split) (payload, does) =
        absurd (cc (steady x.input x.ctx (unwound payload) does))
    works-Mapped {s = s} m (retry_panics pre post x input error split again over) a =
        let answer =
          returned-inj (steady x.input x.ctx (returned (err (retryable input error))) a) in
        elim (calm x.input x.ctx.attempt) [
          | inl final ↦ absurd (subst Final (sym answer) final)
          | inr few_tries ↦ absurd (
              delay_panics x.ctx s.shared again (subst (λ n. n ≤ 64) (sym m.limited) few_tries)
                over)
        ]
    works-Mapped {s = s} m (finishes {t} panicking busy e) a =
        Same-Mapped work limit c m t (s.finishing - 1) (finish_task-Same s.shared t panicking e)
    works-Mapped {s = s} m (suspends {t} b changed e) a =
        Same-Mapped work limit c m t s.finishing (ground arith)
    works-Mapped {s = s} m (clones {t} n e) a =
        Same-Mapped work limit c m t s.finishing (ground arith)
    works-Mapped {s = s} m (drops_clone {t} n e left) a =
        Same-Mapped work limit c m t s.finishing (ground arith)
    works-Mapped {s = s} m (takes_stored {t} stored e) a =
        Same-Mapped work limit c m t s.finishing (ground arith)
    works-Mapped {s = s} m (takes_unprocessed {t} taken e) a =
        let only = take_unprocessed-only s.shared t taken e in
        Same-Mapped work limit c m t s.finishing (record {
          tasks = ap (λ u. u.task_rx) only;
          retries = ap (λ u. u.retry_queue) only;
          mail = ap (λ u. u.channels) only;
          config = ap (λ u. u.config) only;
        })

    -- In every run, up to 2^64 inputs.
    pub MapRun-Mapped :
        {threads : ℕ} (config : Config) (queen : Q) (channels : ℕ → Channel I O E)
        → (channels c).connected ≡ true
        → (channels c).sent ≡ []
        → allowed config ≡ limit
        → {inputs : List I} {s : System I O E Q}
        → MapRun Does c threads (init config queen channels) inputs s
        → length inputs ≤ 2 ^ 64
        → Mapped work limit c inputs s
    unfolding new
    MapRun-Mapped config queen channels live fresh limited opens fits = record {
      prepared = tt;
      queued = tt;
      received = tt;
      running = tt;
      again = tt;
      limited = limited;
      live = live;
      answered = rw fresh tt;
      counted = λ k. rw fresh refl;
      none_lost = refl;
      created = refl;
      total = rw fresh refl;
    }
    MapRun-Mapped config queen channels live fresh limited (submits {inputs} {s} {t} input x run e)
          fits =
        let m : Mapped work limit c inputs s =
          MapRun-Mapped config queen channels live fresh limited run
            (omega (arith, length-append inputs (input ∷ []))) in
        let i = Reach-Issued config queen channels s (MapRun-Reach Does c _ run) in
        submits-Mapped work limit c m t input x
          (omega (
            arith,
            (prepare_task-next input (some c) x s.shared t e).0,
            i.follows,
            m.created,
            length-append inputs (input ∷ []),
          ))
          (prepare_task-Same s.shared t input (some c) x e)
    MapRun-Mapped config queen channels live fresh limited (works run step a) fits =
        works-Mapped (MapRun-Mapped config queen channels live fresh limited run fits) step a
