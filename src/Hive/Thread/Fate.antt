-- ===== src/Hive/Thread/Fate.antt =====
-- src/hive/hive.rs, `execute`: what becomes of a task when its worker has returned.
use procpool.Common.{
  ℕ, ◌+◌, ◌≡◌, ◌<◌, refl, ap, ◌∙◌, [], ◌∷◌, ◌++◌, Option, none, some, true, false, if◌then◌else◌,
  ◌==◌, ok, err, done, arith, inl, inr, Bool-cases, Option-cases,
}
use procpool.Atomic.{get_option}
use procpool.Common.Maps.{get, insert, get-insert}
use procpool.Bee.{Context, WorkerResult, retryable, fatal, cancelled, panic_error, inc_attempt}
use procpool.Delay.{push, new_delayed}
use procpool.Outcome.{Outcome, from_worker_result, index}
use procpool.Shared.{Shared}
use procpool.Shared.Retry.{queue_retry, can_retry, push_retry, update_next_retry}
use procpool.Shared.Tasks.{
  send_or_store_outcome, deliver, try_send_msg, sent_on, add_outcome, new_task,
}
use procpool.Pool.Counts.{retry_delay-cases}
use procpool.Hive.Thread.{settle}

module _ {ℓ} {I O E : Type ℓ} where
  pub outcome_index :
      (result : WorkerResult I O E) (i : ℕ) → index (from_worker_result result i) ≡ i
  unfolding index from_worker_result
  outcome_index (ok v) i = refl
  outcome_index (err (retryable _ _)) i = refl
  outcome_index (err (fatal _ _)) i = refl
  outcome_index (err (cancelled _)) i = refl
  outcome_index (err (panic_error _ _)) i = refl

module _ {ℓ} {I O E Q : Type ℓ} where
  -- The ways in which a task is settled: each leaves the task in one place.
  pub data Fate (ctx : Context) (tx : Option ℕ) (s t : Shared I O E Q)
      : WorkerResult I O E → Type ℓ where
    sends :
        {result : WorkerResult I O E} (c : ℕ) (o : Outcome I O E)
        → tx ≡ some c
        → (s.channels c).connected ≡ true
        → o ≡ from_worker_result result ctx.index
        → ((d : ℕ)
            → (t.channels d).sent
              ≡ (if c == d then (s.channels c).sent ++ o ∷ [] else (s.channels d).sent))
        → t.outcomes ≡ s.outcomes
        → t.retry_queue ≡ s.retry_queue
        → Fate ctx tx s t result
    stores :
        {result : WorkerResult I O E} (o : Outcome I O E)
        → ((c : ℕ) → tx ≡ some c → (s.channels c).connected ≡ false)
        → o ≡ from_worker_result result ctx.index
        → ((i : ℕ) → get i t.outcomes ≡ (if ctx.index == i then some o else get i s.outcomes))
        → t.channels ≡ s.channels
        → t.retry_queue ≡ s.retry_queue
        → Fate ctx tx s t result
    retries :
        (input : I) (error : E) (at : ℕ) (limit : ℕ)
        → get_option s.config.max_retries ≡ some limit
        → ctx.attempt < limit
        → t.retry_queue
          ≡ record {
            value = record {
              input = input;
              ctx = record ctx { attempt = ctx.attempt + 1 };
              outcome_tx = tx;
            };
            until = at;
          }
            ∷ s.retry_queue
        → t.outcomes ≡ s.outcomes
        → t.channels ≡ s.channels
        → Fate ctx tx s t (err (retryable input error))

  pub try_send_msg-live :
      (c : ℕ) (o : Outcome I O E) (s : Shared I O E Q)
      → (s.channels c).connected ≡ true
      → try_send_msg c o s ≡ done none (record s { channels = sent_on c o s })
  unfolding try_send_msg
  try_send_msg-live c o s l = rw l refl

  try_send_msg-gone :
      (c : ℕ) (o : Outcome I O E) (s : Shared I O E Q)
      → (s.channels c).connected ≡ false
      → try_send_msg c o s ≡ done (some o) s
  unfolding try_send_msg
  try_send_msg-gone c o s l = rw l refl

  pub sent_on-sent :
      (c : ℕ) (o : Outcome I O E) (s : Shared I O E Q) (d : ℕ)
      → (sent_on c o s d).sent
        ≡ (if c == d then (s.channels c).sent ++ o ∷ [] else (s.channels d).sent)
  unfolding sent_on
  sent_on-sent c o s d = ground arith

  -- The state once an outcome is stored.
  abbrev with_stored : Outcome I O E → Shared I O E Q → Shared I O E Q
  with_stored o s = record s { outcomes = insert (index o) o s.outcomes }

  stored_outcome :
      (result : WorkerResult I O E) (ctx : Context) (s t : Shared I O E Q) (i : ℕ)
      → t ≡ with_stored (from_worker_result result ctx.index) s
      → get i t.outcomes
        ≡ (if ctx.index == i then some (from_worker_result result ctx.index) else get i s.outcomes)
  stored_outcome result ctx s t i e =
      let o : Outcome I O E = from_worker_result result ctx.index in
      ground (arith, e, outcome_index result ctx.index, get-insert (index o) i o s.outcomes)

  delivered :
      (result : WorkerResult I O E) (ctx : Context) (tx : Option ℕ) (s t : Shared I O E Q)
      → send_or_store_outcome (from_worker_result result ctx.index) tx s ≡ done tt t
      → Fate ctx tx s t result
  unfolding send_or_store_outcome deliver add_outcome
  delivered result ctx none s t e =
      let same : t ≡ with_stored (from_worker_result result ctx.index) s = ground arith in
      stores (from_worker_result result ctx.index) (λ c p. absurd (cc)) refl
        (λ i. stored_outcome result ctx s t i same) (ap (λ u. u.channels) same)
        (ap (λ u. u.retry_queue) same)
  delivered result ctx (some c) s t e =
      let o : Outcome I O E = from_worker_result result ctx.index in
      elim (Bool-cases (s.channels c).connected) [
        | inl l ↦
            let same : t ≡ record s { channels = sent_on c o s } =
              ground (arith, try_send_msg-live c o s l) in
            sends c o refl l refl (λ d. ap (λ u. (u.channels d).sent) same ∙ sent_on-sent c o s d)
              (ap (λ u. u.outcomes) same) (ap (λ u. u.retry_queue) same)
        | inr l ↦
            let same : t ≡ with_stored o s = ground (arith, try_send_msg-gone c o s l) in
            stores o (λ d p. ground arith) refl (λ i. stored_outcome result ctx s t i same)
              (ap (λ u. u.channels) same) (ap (λ u. u.retry_queue) same)
      ]

  retried :
      (now : ℕ) (input : I) (error : E) (ctx : Context) (tx : Option ℕ) (s t : Shared I O E Q)
      → can_retry ctx s ≡ true
      → queue_retry now input (inc_attempt ctx) tx s ≡ done tt t
      → Fate ctx tx s t (err (retryable input error))
  unfolding can_retry queue_retry push_retry update_next_retry push new_delayed new_task inc_attempt
  retried now input error ctx tx s t again e =
      elim (retry_delay-cases (record ctx { attempt = ctx.attempt + 1 }) s) [
        | inr no_delay ↦ ground arith
        | inl (delay, d) ↦ elim (Option-cases (get_option s.config.max_retries)) [
          | inl unset ↦ ground arith
          | inr (limit, set) ↦
              retries input error (now + delay) limit set (ground arith) (ground arith)
                (ground arith) (ground arith)
        ]
      ]

  -- Where `execute` returns after the worker has, the task is in exactly one place, and the rest
  -- of the outcomes, of what the channels were sent and of the retry queue stays as it was.
  -- Either its outcome is sent last on its channel, whose receiver lives; or it has no channel
  -- with a receiver and the outcome is stored under the index of its context; or its error is
  -- retryable, its attempt is below the limit, and it is in the retry queue with the same input,
  -- index and channel and the next attempt.
  pub settle-Fate :
      (now : ℕ) (ctx : Context) (tx : Option ℕ) (result : WorkerResult I O E) (s t : Shared I O E Q)
      → settle now ctx tx result s ≡ done tt t
      → Fate ctx tx s t result
  unfolding settle
  settle-Fate now ctx tx (ok value) s t e = delivered _ ctx tx s t e
  settle-Fate now ctx tx (err (retryable input error)) s t e = elim (Bool-cases (can_retry ctx s)) [
    | inl again ↦ retried now input error ctx tx s t again (ground arith)
    | inr finished ↦ delivered (err (retryable input error)) ctx tx s t (ground arith)
  ]
  settle-Fate now ctx tx (err (fatal input error)) s t e = delivered _ ctx tx s t e
  settle-Fate now ctx tx (err (cancelled input)) s t e = delivered _ ctx tx s t e
  settle-Fate now ctx tx (err (panic_error input payload)) s t e = delivered _ ctx tx s t e
