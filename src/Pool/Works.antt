-- ===== src/Pool/Works.antt =====
-- src/hive/hive.rs and src/hive/shared.rs: runs of the worker threads, and the steps that their
-- tasks need.
use procpool.Common.{ℕ, ◌≤◌, ◌+◌, ◌-◌, ◌*◌, ◌<◌, ◌≡◌, List, [], ◌∷◌, ◌++◌, length, false, arith}
use procpool.Bee.{Context, Unwind, returned, WorkerResult}
use procpool.Pool.{System, Step, suspends, clones, drops_clone, takes_stored, takes_unprocessed}
use procpool.Pool.Invariant.{queued}
use procpool.Pool.Mapped.Tries.{allowed}
use procpool.Pool.Mapped.{Answers, Never}
use procpool.Shared.{Task}

module _ {ℓ} {I O E : Type ℓ} (work : I → ℕ → WorkerResult I O E) where
  -- What a worker does that returns what `work` says for the input and the attempt.
  abbrev pub Works : I → Context → Unwind (WorkerResult I O E) → Type ℓ
  Works v ctx call = call ≡ returned (work v ctx.attempt)

abbrev pub weigh {ℓ} : {A : Type ℓ} → (A → ℕ) → List A → ℕ
weigh f [] = 0
weigh f (x ∷ xs) = f x + weigh f xs

pub weigh-append {ℓ} :
    {A : Type ℓ} (f : A → ℕ) (xs ys : List A) → weigh f (xs ++ ys) ≡ weigh f xs + weigh f ys
weigh-append f [] ys = omega arith
weigh-append f (x ∷ xs) ys = omega (arith, weigh-append f xs ys)

-- The steps of the tries that a task has left.
abbrev pub steps_again {ℓ} : {I : Type ℓ} → ℕ → Task I → ℕ
steps_again limit x = 5 * (limit - x.ctx.attempt)

module _ {ℓ} {I O E Q : Type ℓ} where
  -- How many steps the tasks of a hive still need at most, if each is tried again up to `limit` times.
  abbrev pub steps_left : ℕ → System I O E Q → ℕ
  steps_left limit s =
      5 * length s.prepared
      + 4 * (length s.shared.task_rx + length s.shared.retry_queue)
      + 3 * length s.received
      + 2 * length s.running
      + s.finishing
      + weigh (steps_again limit) s.prepared
      + weigh (steps_again limit) s.shared.task_rx
      + weigh (λ d. steps_again limit d.value) s.shared.retry_queue
      + weigh (steps_again limit) s.received
      + weigh (steps_again limit) s.running

  -- The tasks that are not done.
  abbrev pub undone : System I O E Q → ℕ
  undone s = queued s + length s.running

  module _ (work : I → ℕ → WorkerResult I O E) where
    -- A step of a worker thread, or of a client that sends a task that it has prepared.
    abbrev pub Onwards : {threads : ℕ} {s t : System I O E Q} → Step threads s t → Type ℓ
    Onwards (suspends _ _ _) = Never
    Onwards (clones _ _) = Never
    Onwards (drops_clone _ _ _) = Never
    Onwards (takes_stored _ _) = Never
    Onwards (takes_unprocessed _ _) = Never
    Onwards {threads} step = Answers (Works work) 0 threads step

    -- A run of the worker threads, in which the clients send what they have prepared, and no more.
    pub data Serves (threads : ℕ) (s : System I O E Q) : System I O E Q → Type (ℓ + 1) where
      rests : Serves threads s s
      serves :
          {t u : System I O E Q}
          → Serves threads s t
          → (step : Step threads t u) → Onwards step
          → Serves threads s u

    -- A step of the threads that leaves less to do.
    pub record Onward (limit threads : ℕ) (s : System I O E Q) : Type (ℓ + 1) where
      pub next : System I O E Q
      pub step : Step threads s next
      pub answers : Onwards step
      pub fewer : steps_left limit next < steps_left limit s
      pub no_batch : next.reserved ≡ []
      pub awake : next.shared.suspended ≡ false
      pub limited : allowed next.shared.config ≡ limit
      pub no_more : undone next ≤ undone s
