-- ===== src/Pool/Mapped/Invariant.antt =====
-- src/hive/hive.rs, `map`: where the inputs of a client are while the worker threads interleave.
use procpool.Common.{
  ℕ, ◌+◌, ◌-◌, ◌≡◌, ap, ◌∙◌, List, [], ◌∷◌, ◌++◌, map, length, length-append, some, true, arith,
  get_elem?, All, All-imp, get_elem?-append, get_elem?-last,
}
use procpool.Bee.{WorkerResult}
use procpool.Outcome.{Outcome, from_worker_result, index}
use procpool.Pool.{System}
use procpool.Pool.Frames.{Same}
use procpool.Pool.Mapped.Tries.{allowed, last_result}
use procpool.Pool.Occurs.{occurs}
use procpool.Shared.{Task, Shared}

module _ {ℓ} {I O E : Type ℓ} (work : I → ℕ → WorkerResult I O E) (limit : ℕ) where
  -- A task for the channel `c`, with the last result of the input that was submitted under its index.
  abbrev pub Tracked : ℕ → List I → Task I → Type ℓ
  Tracked c inputs x =
      (x.outcome_tx ≡ some c)
      × (v : I) × (get_elem? inputs x.ctx.index ≡ some v)
      × (last_result work limit v 0
          ≡ last_result work (limit - x.ctx.attempt) x.input x.ctx.attempt)

  -- The outcome of the input that was submitted under its index.
  abbrev pub Answer : List I → Outcome I O E → Type ℓ
  Answer inputs o =
      (v : I) × (get_elem? inputs (index o) ≡ some v)
      × (o ≡ from_worker_result (last_result work limit v 0) (index o))

  Tracked-more :
      (c : ℕ) (inputs : List I) (input : I) (x : Task I)
      → Tracked c inputs x
      → Tracked c (inputs ++ input ∷ []) x
  Tracked-more c inputs input x (tx, v, at, same) =
      (tx, v, get_elem?-append inputs input v x.ctx.index at, same)

  Answer-more :
      (inputs : List I) (input : I) (o : Outcome I O E)
      → Answer inputs o
      → Answer (inputs ++ input ∷ []) o
  Answer-more inputs input o (v, at, same) = (v, get_elem?-append inputs input v (index o) at, same)

module _ {ℓ} {I O E Q : Type ℓ} (work : I → ℕ → WorkerResult I O E) (limit c : ℕ) where
  abbrev pub sent : System I O E Q → List (Outcome I O E)
  sent s = (s.shared.channels c).sent

  pub record Mapped (inputs : List I) (s : System I O E Q) : Type ℓ where
    pub prepared : All (Tracked work limit c inputs) s.prepared
    pub queued : All (Tracked work limit c inputs) s.shared.task_rx
    pub received : All (Tracked work limit c inputs) s.received
    pub running : All (Tracked work limit c inputs) s.running
    pub again : All (λ d. Tracked work limit c inputs d.value) s.shared.retry_queue
    pub limited : allowed s.shared.config ≡ limit
    pub live : (s.shared.channels c).connected ≡ true
    pub answered : All (Answer work limit inputs) (sent s)
    pub counted : (k : ℕ) → occurs k (map index (sent s)) ≡ occurs k s.delivered
    pub none_lost : s.lost ≡ []
    pub created : length s.created ≡ length inputs
    pub total :
        length inputs
        ≡ length s.prepared
          + length s.shared.task_rx
          + length s.shared.retry_queue
          + length s.received
          + length s.running
          + length (sent s)

  module _ {inputs : List I} {s : System I O E Q} (m : Mapped inputs s) where
    pub submits-Mapped :
        (t : Shared I O E Q) (input : I) (x : Task I)
        → x.ctx.index ≡ length inputs
        → Same s.shared t × (x.input ≡ input) × (x.outcome_tx ≡ some c) × (x.ctx.attempt ≡ 0)
        → Mapped
            (inputs ++ input ∷ [])
            (record s { shared = t; prepared = x ∷ s.prepared; created = x.ctx.index ∷ s.created })
    submits-Mapped t input x at (same, same_input, same_tx, first_try) =
        let more = Tracked-more work limit c inputs input in
        record {
          prepared = (
            (
              same_tx,
              input,
              rw at (get_elem?-last inputs input),
              rw (first_try, same_input) (ap (λ n. last_result work n input 0) (omega arith)),
            ),
            All-imp more s.prepared m.prepared,
          );
          queued = rw same.tasks (All-imp more s.shared.task_rx m.queued);
          received = All-imp more s.received m.received;
          running = All-imp more s.running m.running;
          again = rw same.retries (All-imp (λ d. more d.value) s.shared.retry_queue m.again);
          limited = ap allowed same.config ∙ m.limited;
          live = rw same.mail m.live;
          answered =
              rw same.mail (All-imp (Answer-more work limit inputs input) (sent s) m.answered);
          counted = λ k. rw same.mail (m.counted k);
          none_lost = m.none_lost;
          created = omega (arith, m.created, length-append inputs (input ∷ []));
          total =
              rw (same.mail, same.tasks, same.retries)
                (omega (arith, m.total, length-append inputs (input ∷ [])));
        }

    pub Same-Mapped :
        (t : Shared I O E Q) (finishing : ℕ)
        → Same s.shared t
        → Mapped inputs (record s { shared = t; finishing = finishing })
    Same-Mapped t finishing same = record {
      prepared = m.prepared;
      queued = rw same.tasks m.queued;
      received = m.received;
      running = m.running;
      again = rw same.retries m.again;
      limited = ap allowed same.config ∙ m.limited;
      live = rw same.mail m.live;
      answered = rw same.mail m.answered;
      counted = λ k. rw same.mail (m.counted k);
      none_lost = m.none_lost;
      created = m.created;
      total = rw (same.mail, same.tasks, same.retries) m.total;
    }
