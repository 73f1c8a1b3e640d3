-- ===== src/Pool/Moves.antt =====
-- src/hive/hive.rs and src/hive/shared.rs: which step a thread has to make while `join` waits.
use procpool.Common.{
  ℕ, ◌≤◌, suc, ◌-◌, ◌^◌, ◌<◌, ◌≡◌, ap, ◌∙◌, subst, ◌⊎◌, inl, inr, List, [], ◌∷◌, ◌++◌, length,
  length-append, List-cases, zero-cases, some, false, arith,
}
use procpool.Bee.{WorkerResult}
use procpool.Config.{Config}
use procpool.Delay.{DelayQueue, Delayed}
use procpool.Delay.Laws.{NotBefore}
use procpool.Hive.{join_waits}
use procpool.Pool.{System, Step, Reach, init, threads_busy, pops, receives, activates, finishes}
use procpool.Pool.Frames.{pop_retry-tasks}
use procpool.Pool.Invariant.{length-middle}
use procpool.Pool.Mapped.Tries.{allowed, try_pop-middle}
use procpool.Pool.Join.{join_waits-Reach, activate-Reach, finish_task-Reach}
use procpool.Pool.Totals.{pop_retry-cases, pop_retry-frame, send_task_total, receive_total}
use procpool.Pool.Retries.{pop_retry-Reach}
use procpool.Shared.{Task, Channel}
use procpool.Pool.Works.{weigh, weigh-append, steps_again, undone, Onward}
use procpool.Pool.Returns.{works-Onward}

module _ {ℓ} {I O E Q : Type ℓ} where
  module _ (work : I → ℕ → WorkerResult I O E) (limit : ℕ) {threads : ℕ} (small : threads < 2 ^ 16)
      (some_thread : 0 < threads) (config : Config) (queen : Q) (channels : ℕ → Channel I O E)
      (s : System I O E Q) (r : Reach threads (init config queen channels) s)
      (no_batch : s.reserved ≡ []) (awake : s.shared.suspended ≡ false) (few_tries : limit ≤ 64)
      (limited : allowed s.shared.config ≡ limit) (room : undone s < 2 ^ 48) where
    sends-Onward :
        (x : Task I) (rest : List (Task I)) → s.prepared ≡ x ∷ rest → Onward work limit threads s
    sends-Onward x rest e = record {
      next = record s {
        shared = record s.shared { task_rx = s.shared.task_rx ++ x ∷ [] };
        prepared = rest;
      };
      step = Step.sends [] rest x x.ctx.index e (send_task_total x s.shared);
      answers = tt;
      fewer = omega (
        arith,
        ap length e,
        length-append s.shared.task_rx (x ∷ []),
        ap (weigh (steps_again limit)) e,
        weigh-append (steps_again limit) s.shared.task_rx (x ∷ []),
      );
      no_batch = no_batch;
      awake = awake;
      limited = limited;
      no_more = omega (arith, ap length e, length-append s.shared.task_rx (x ∷ []));
    }

    finishes-Onward : 0 < s.finishing → Onward work limit threads s
    finishes-Onward busy = record {
      next = record s { shared = _; finishing = s.finishing - 1 };
      step =
          finishes false busy
            (finish_task-Reach small config queen channels s r false (omega arith));
      answers = tt;
      fewer = omega arith;
      no_batch = no_batch;
      awake = awake;
      limited = limited;
      no_more = omega arith;
    }

    activates-Onward :
        (x : Task I) (rest : List (Task I)) → s.received ≡ x ∷ rest → Onward work limit threads s
    activates-Onward x rest e = record {
      next = _;
      step = activates [] rest x e (activate-Reach small config queen channels s r [] rest x e);
      answers = tt;
      fewer = omega (arith, ap length e, ap (weigh (steps_again limit)) e);
      no_batch = no_batch;
      awake = awake;
      limited = limited;
      no_more = omega (arith, ap length e);
    }

    receives-Onward :
        (x : Task I) (rest : List (Task I))
        → threads_busy s < threads
        → s.shared.task_rx ≡ x ∷ rest
        → Onward work limit threads s
    receives-Onward x rest room e = record {
      next = _;
      step = receives x room (receive_total x rest s.shared e);
      answers = tt;
      fewer = omega (arith, ap length e, ap (weigh (steps_again limit)) e);
      no_batch = no_batch;
      awake = awake;
      limited = limited;
      no_more = omega (arith, ap length e);
    }

    pops-Onward :
        (d : Delayed (Task I)) (rest : DelayQueue (Task I))
        → threads_busy s < threads
        → s.shared.retry_queue ≡ d ∷ rest
        → Onward work limit threads s
    pops-Onward d rest room e = elim (pop_retry-cases d.until s.shared) [
      | inl (t, none_there) ↦
          let late : NotBefore (suc d.until) (d ∷ rest) =
            subst (NotBefore (suc d.until)) e
              (pop_retry-Reach threads config queen channels s r d.until t none_there) in
          absurd (omega (arith, late.0))
      | inr (x, t, found) ↦
          let (tasks, mail, same_config, queue) =
            pop_retry-tasks s.shared t d.until (some x) found in
          elim queue [
            | inl none_there ↦ absurd (cc none_there.0)
            | inr popped ↦
                let (pre, post, entry, same, whole, left) =
                  try_pop-middle d.until s.shared.retry_queue t.retry_queue x popped in
                record {
                  next = _;
                  step = pops d.until x room found;
                  answers = tt;
                  fewer = omega (
                    arith,
                    ap length whole ∙ length-middle pre post entry,
                    ap length left,
                    ap length tasks,
                    ap (weigh (steps_again limit)) tasks,
                    ap (weigh (λ d. steps_again limit d.value)) whole,
                    weigh-append (λ d. steps_again limit d.value) pre (entry ∷ post),
                    ap (weigh (λ d. steps_again limit d.value)) left,
                    weigh-append (λ d. steps_again limit d.value) pre post,
                    ap (steps_again limit) same,
                  );
                  no_batch = no_batch;
                  awake = (pop_retry-frame d.until (some x) s.shared t found).1 ∙ awake;
                  limited = ap allowed same_config ∙ limited;
                  no_more = omega (
                    arith,
                    ap length whole ∙ length-middle pre post entry,
                    ap length left,
                    ap length tasks,
                  );
                }
          ]
    ]

    free : s.running ≡ [] → s.received ≡ [] → s.finishing ≡ 0 → threads_busy s < threads
    free none_running none_received none_finishing =
        omega (arith, ap length none_running, ap length none_received)

    -- A hive in which `join` waits has a step to make.
    pub join_waits-Onward : Onward work limit threads s ⊎ (join_waits s.shared ≡ false)
    join_waits-Onward = elim (List-cases s.prepared) [
      | inr (x, rest, e) ↦ inl (sends-Onward x rest e)
      | inl none_prepared ↦ elim (List-cases s.running) [
        | inr (x, rest, e) ↦ inl (
            works-Onward work limit small config queen channels s r no_batch awake few_tries limited
              room x rest e)
        | inl none_running ↦ elim (List-cases s.received) [
          | inr (x, rest, e) ↦ inl (activates-Onward x rest e)
          | inl none_received ↦ elim (zero-cases s.finishing) [
            | inr busy ↦ inl (finishes-Onward busy)
            | inl none_finishing ↦ elim (List-cases s.shared.task_rx) [
              | inr (x, rest, e) ↦
                  inl (receives-Onward x rest (free none_running none_received none_finishing) e)
              | inl none_sent ↦ elim (List-cases s.shared.retry_queue) [
                | inr (d, rest, e) ↦
                    inl (pops-Onward d rest (free none_running none_received none_finishing) e)
                | inl none_again ↦ inr (
                    (join_waits-Reach small config queen channels s r).1 (
                      omega (arith, ap length none_running),
                      inr (
                          omega (
                            arith,
                            ap length none_prepared,
                            ap length none_received,
                            ap length none_sent,
                            ap length none_again,
                            ap length no_batch,
                          )),
                    ))
              ]
            ]
          ]
        ]
      ]
    ]
