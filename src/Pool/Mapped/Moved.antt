-- ===== src/Pool/Mapped/Moved.antt =====
-- src/hive/hive.rs, `map`, and src/hive/shared.rs: a client's tasks when a thread moves one of them.
use procpool.Common.{
  ℕ, ◌≡◌, ap, ◌∙◌, subst, List, [], ◌∷◌, ◌++◌, length, length-append, some, arith, All, All-append,
  All-middle,
}
use procpool.Bee.{WorkerResult}
use procpool.Delay.{Delayed, try_pop}
use procpool.Pool.{System}
use procpool.Pool.Frames.{Same}
use procpool.Pool.Invariant.{length-middle}
use procpool.Pool.Mapped.Tries.{allowed, try_pop-middle}
use procpool.Shared.{Task, Shared}
use procpool.Pool.Mapped.Invariant.{Tracked, Mapped, Same-Mapped}

module _ {ℓ} {I O E Q : Type ℓ} (work : I → ℕ → WorkerResult I O E) (limit c : ℕ) {inputs : List I}
    {s : System I O E Q} (m : Mapped work limit c inputs s) where
  pub sends-Mapped :
      (t : Shared I O E Q) (pre post : List (Task I)) (x : Task I)
      → s.prepared ≡ pre ++ x ∷ post
      → (t.task_rx ≡ s.shared.task_rx ++ x ∷ [])
        × (t.retry_queue ≡ s.shared.retry_queue)
        × (t.channels ≡ s.shared.channels)
        × (t.config ≡ s.shared.config)
      → Mapped work limit c inputs (record s { shared = t; prepared = pre ++ post })
  sends-Mapped t pre post x split (tasks, retries, mail, config) =
      let taken =
        All-middle (Tracked work limit c inputs) pre post x
          (subst (All (Tracked work limit c inputs)) split m.prepared) in
      record {
        prepared = taken.1;
        queued = rw tasks (
            All-append (Tracked work limit c inputs) s.shared.task_rx (x ∷ []) m.queued
              (taken.0, tt));
        received = m.received;
        running = m.running;
        again = rw retries m.again;
        limited = ap allowed config ∙ m.limited;
        live = rw mail m.live;
        answered = rw mail m.answered;
        counted = λ k. rw mail (m.counted k);
        none_lost = m.none_lost;
        created = m.created;
        total =
            rw (mail, tasks, retries)
              (omega (
                arith,
                m.total,
                ap length split ∙ length-middle pre post x,
                length-append s.shared.task_rx (x ∷ []),
              ));
      }

  pub receives-Mapped :
      (t : Shared I O E Q) (x : Task I)
      → (s.shared.task_rx ≡ x ∷ t.task_rx)
        × (t.retry_queue ≡ s.shared.retry_queue)
        × (t.channels ≡ s.shared.channels)
        × (t.config ≡ s.shared.config)
      → Mapped work limit c inputs (record s { shared = t; received = x ∷ s.received })
  receives-Mapped t x (tasks, retries, mail, config) =
      let taken : All (Tracked work limit c inputs) (x ∷ t.task_rx) =
        subst (All (Tracked work limit c inputs)) tasks m.queued in
      record {
        prepared = m.prepared;
        queued = taken.1;
        received = (taken.0, m.received);
        running = m.running;
        again = rw retries m.again;
        limited = ap allowed config ∙ m.limited;
        live = rw mail m.live;
        answered = rw mail m.answered;
        counted = λ k. rw mail (m.counted k);
        none_lost = m.none_lost;
        created = m.created;
        total = rw (mail, retries) (omega (arith, m.total, ap length tasks));
      }

  pub activates-Mapped :
      (t : Shared I O E Q) (pre post : List (Task I)) (x : Task I)
      → s.received ≡ pre ++ x ∷ post
      → Same s.shared t
      → Mapped work limit c inputs
          (record s { shared = t; received = pre ++ post; running = x ∷ s.running })
  activates-Mapped t pre post x split same =
      let taken =
        All-middle (Tracked work limit c inputs) pre post x
          (subst (All (Tracked work limit c inputs)) split m.received) in
      record {
        prepared = m.prepared;
        queued = rw same.tasks m.queued;
        received = taken.1;
        running = (taken.0, m.running);
        again = rw same.retries m.again;
        limited = ap allowed same.config ∙ m.limited;
        live = rw same.mail m.live;
        answered = rw same.mail m.answered;
        counted = λ k. rw same.mail (m.counted k);
        none_lost = m.none_lost;
        created = m.created;
        total =
            rw (same.mail, same.tasks, same.retries)
              (omega (arith, m.total, ap length split ∙ length-middle pre post x));
      }

  pub finds_none-Mapped :
      (t : Shared I O E Q)
      → (t.task_rx ≡ s.shared.task_rx)
        × (t.channels ≡ s.shared.channels)
        × (t.config ≡ s.shared.config)
      → t.retry_queue ≡ s.shared.retry_queue
      → Mapped work limit c inputs (record s { shared = t })
  finds_none-Mapped t (tasks, mail, config) retries =
      Same-Mapped work limit c m t s.finishing
        (record { tasks = tasks; retries = retries; mail = mail; config = config })

  pub pops-Mapped :
      (t : Shared I O E Q) (now : ℕ) (x : Task I)
      → (t.task_rx ≡ s.shared.task_rx)
        × (t.channels ≡ s.shared.channels)
        × (t.config ≡ s.shared.config)
      → try_pop now s.shared.retry_queue ≡ (some x, t.retry_queue)
      → Mapped work limit c inputs (record s { shared = t; received = x ∷ s.received })
  pops-Mapped t now x (tasks, mail, config) popped =
      let (pre, post, d, same, whole, left) =
        try_pop-middle now s.shared.retry_queue t.retry_queue x popped in
      let P : Delayed (Task I) → Type ℓ = λ d. Tracked work limit c inputs d.value in
      let taken = All-middle P pre post d (subst (All P) whole m.again) in
      record {
        prepared = m.prepared;
        queued = rw tasks m.queued;
        again = rw left taken.1;
        limited = ap allowed config ∙ m.limited;
        received = (subst (Tracked work limit c inputs) same taken.0, m.received);
        running = m.running;
        live = rw mail m.live;
        answered = rw mail m.answered;
        counted = λ k. rw mail (m.counted k);
        none_lost = m.none_lost;
        created = m.created;
        total =
            rw (mail, tasks)
              (omega (arith, m.total, ap length whole ∙ length-middle pre post d, ap length left));
      }
