-- ===== src/Pool/Mapped/Tries.antt =====
-- src/hive/hive.rs, `execute`, with src/hive/shared.rs and src/hive/delay.rs: the tries of one task, and
-- what is said of every task in the retry queue.
use procpool.Common.{
  ℕ, zero, suc, ◌+◌, ◌-◌, ◌≤◌, ◌<◌, ◌≡◌, refl, ap, ◌∙◌, ◌⊎◌, inl, inr, [], ◌∷◌, none, some, false,
  true, ltb, ok, err, arith, ◌++◌, leb, Bool-cases, Option-cases,
}
use mathlib.Core.Option
use procpool.Atomic.{get_option}
use procpool.Bee.{Context, WorkerResult, retryable, fatal, cancelled, panic_error}
use procpool.Config.{Config}
use procpool.Delay.{Delayed, DelayQueue, heap_pop, try_pop}
use procpool.Delay.Laws.{heap_pop-cases}
use procpool.Pool.{is_requeued}
use procpool.Pool.Frames.{Final}
use procpool.Shared.{Shared}
use procpool.Shared.Retry.{can_retry}

-- How many times a configuration lets a task be tried again.
abbrev pub allowed : Config → ℕ
allowed c = Option.get_or (get_option c.max_retries) 0

module _ {ℓ} {I O E : Type ℓ} (work : I → ℕ → WorkerResult I O E) where
  -- The last result of a task at some attempt that may be tried `n` times more, where the worker
  -- returns `work v a` for the input `v` at the attempt `a`.
  abbrev pub last_result : ℕ → I → ℕ → WorkerResult I O E
  last_result zero v a = work v a
  last_result (suc n) v a = elim (work v a) [
    | err (retryable v' _) ↦ last_result n v' (a + 1)
    | _ ↦ work v a
  ]

  one_more :
      (n : ℕ) (v v' : I) (a : ℕ) (x : E)
      → work v a ≡ err (retryable v' x)
      → last_result (suc n) v a ≡ last_result n v' (a + 1)
  one_more n v v' a x e = rw (e, last_result) refl

  -- A task that is tried again keeps its last result.
  pub last_result-again :
      (limit : ℕ) (v v' : I) (a : ℕ) (x : E)
      → work v a ≡ err (retryable v' x)
      → a < limit
      → last_result (limit - a) v a ≡ last_result (limit - (a + 1)) v' (a + 1)
  last_result-again limit v v' a x e more =
      let left : limit - a ≡ suc (limit - (a + 1)) = omega arith in
      ap (λ n. last_result n v a) left ∙ one_more (limit - (a + 1)) v v' a x e

  -- A result that is not retryable is the last one.
  pub last_result-Final :
      (n : ℕ) (v : I) (a : ℕ) (r : WorkerResult I O E)
      → work v a ≡ r
      → Final r
      → last_result n v a ≡ r
  last_result-Final zero v a r e f = e
  last_result-Final (suc n) v a (ok o) e f = rw (e, last_result) e
  last_result-Final (suc n) v a (err (retryable i x)) e f = absurd f
  last_result-Final (suc n) v a (err (fatal i x)) e f = rw (e, last_result) e
  last_result-Final (suc n) v a (err (cancelled i)) e f = rw (e, last_result) e
  last_result-Final (suc n) v a (err (panic_error i p)) e f = rw (e, last_result) e

module _ {ℓ} {I O E Q : Type ℓ} where
  pub can_retry-allowed :
      (ctx : Context) (s : Shared I O E Q) → can_retry ctx s ≡ ltb ctx.attempt (allowed s.config)
  unfolding can_retry
  can_retry-allowed ctx s = elim (Option-cases (get_option s.config.max_retries)) [
    | inl unset ↦ ground (arith, unset)
    | inr (limit, set) ↦ ground (arith, set)
  ]

  -- A task that is not tried again has a result that is not retryable, or no tries left.
  pub is_requeued-allowed :
      (ctx : Context) (result : WorkerResult I O E) (s : Shared I O E Q)
      → is_requeued ctx result s ≡ false
      → Final result ⊎ (allowed s.config ≤ ctx.attempt)
  is_requeued-allowed ctx (ok v) s e = inl tt
  is_requeued-allowed ctx (err (retryable i x)) s e = inr (ground (arith, can_retry-allowed ctx s))
  is_requeued-allowed ctx (err (fatal i x)) s e = inl tt
  is_requeued-allowed ctx (err (cancelled i)) s e = inl tt
  is_requeued-allowed ctx (err (panic_error i p)) s e = inl tt

  pub is_requeued-retryable :
      (ctx : Context) (result : WorkerResult I O E) (s : Shared I O E Q)
      → is_requeued ctx result s ≡ true
      → (input : I) × (error : E) × (result ≡ err (retryable input error))
        × (can_retry ctx s ≡ true)
  is_requeued-retryable ctx (ok v) s e = absurd (cc)
  is_requeued-retryable ctx (err (retryable i x)) s e = (i, x, refl, e)
  is_requeued-retryable ctx (err (fatal i x)) s e = absurd (cc)
  is_requeued-retryable ctx (err (cancelled i)) s e = absurd (cc)
  is_requeued-retryable ctx (err (panic_error i p)) s e = absurd (cc)

-- An entry that is popped stood somewhere in the queue, and the others keep their places.
module _ {ℓ} {T : Type ℓ} where
  heap_pop-middle :
      (q rest : DelayQueue T) (d : Delayed T)
      → heap_pop q ≡ some (d, rest)
      → (pre : DelayQueue T) × (post : DelayQueue T) × (q ≡ pre ++ d ∷ post) × (rest ≡ pre ++ post)
  unfolding heap_pop
  heap_pop-middle [] rest d e = absurd (cc)
  heap_pop-middle (x ∷ q) rest d e = elim (Option-cases (heap_pop q)) [
    | inl p ↦ elim (heap_pop-cases q) [
      | inl (empty, _) ↦ ([], [], ground (arith, p, empty), ground (arith, p, empty))
      | inr (first, others, p', v) ↦ absurd (cc)
    ]
    | inr ((first, others), p) ↦ elim (Bool-cases (leb x.until first.until)) [
      | inl early ↦ ([], q, ground (arith, p), ground (arith, p))
      | inr late ↦
          let (pre, post, whole, left) = heap_pop-middle q others first p in
          (x ∷ pre, post, ground (arith, p), ground (arith, p))
    ]
  ]

  pub try_pop-middle :
      (now : ℕ) (q rest : DelayQueue T) (x : T)
      → try_pop now q ≡ (some x, rest)
      → (pre : DelayQueue T) × (post : DelayQueue T) × (d : Delayed T) × (d.value ≡ x)
        × (q ≡ pre ++ d ∷ post)
        × (rest ≡ pre ++ post)
  unfolding try_pop
  try_pop-middle now q rest x e = elim (Option-cases (heap_pop q)) [
    | inl p ↦ absurd (ground arith)
    | inr ((d, others), p) ↦
        let (pre, post, whole, left) = heap_pop-middle q others d p in
        (pre, post, d, ground arith, whole, ground arith)
  ]

  pub try_pop-left : (now : ℕ) (q rest : DelayQueue T) → try_pop now q ≡ (none, rest) → rest ≡ q
  unfolding try_pop
  try_pop-left now q rest e = elim (Option-cases (heap_pop q)) [
    | inl p ↦ ground arith
    | inr ((d, others), p) ↦ ground arith
  ]
