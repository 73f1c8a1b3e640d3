-- ===== src/Shared/Retry/Bound.antt =====
-- src/hive/shared.rs, module `retry`: the field `next_retry` and the retry queue.
use procpool.Common.{
  ℕ, suc, ◌+◌, ◌≤◌, ◌<◌, ◌≡◌, refl, sym, subst, ◌⊎◌, [], ◌∷◌, Option, none, some, All, done, false,
  arith, leb, inl, inr, Bool-cases, Option-cases,
}
use mathlib.Core.Option
use procpool.Bee.{Context}
use procpool.Delay.{Delayed, DelayQueue, heap_pop, next_available, try_pop, push, new_delayed}
use procpool.Delay.Laws.{
  NotBefore, heap_pop-cases, next_available-bound, try_pop-Popped, try_pop-none, Popped, waits,
  gives,
}
use procpool.Shared.{Task, Shared}
use procpool.Pool.Counts.{retry_delay-cases}
use procpool.Shared.Tasks.{new_task}
use procpool.Shared.Queue.{pop_retry, has_retry}
use procpool.Shared.Retry.{updated_next_retry, update_next_retry, queue_retry, push_retry}

-- The instant is set, and is no later than `t`.
abbrev pub IsBefore : Option ℕ → ℕ → Type 0
IsBefore none t = ⊥
IsBefore (some n) t = n ≤ t

updated-unset : (n : ℕ) → updated_next_retry (some n) none ≡ some n
unfolding updated_next_retry
updated-unset n = refl

updated-some :
    (n c : ℕ)
    → ((n < c) × (updated_next_retry (some n) (some c) ≡ some n))
      ⊎ ((c ≤ n) × (updated_next_retry (some n) (some c) ≡ some c))
unfolding updated_next_retry
updated-some n c = ground arith

module _ {ℓ} {T : Type ℓ} where
  -- The instant is set if an item waits, and no item is due before it.
  abbrev pub Bounds : Option ℕ → DelayQueue T → Type 0
  Bounds next q = All (λ d. IsBefore next d.until) q

  Bounds-of : (n : ℕ) (q : DelayQueue T) → NotBefore n q → Bounds (some n) q
  Bounds-of n [] h = tt
  Bounds-of n (d ∷ q) h = (h.0, Bounds-of n q h.1)

  Bounds-NotBefore : (n : ℕ) (q : DelayQueue T) → Bounds (some n) q → NotBefore n q
  Bounds-NotBefore n [] h = tt
  Bounds-NotBefore n (d ∷ q) h = (h.0, Bounds-NotBefore n q h.1)

  NotBefore-mono : (m n : ℕ) (q : DelayQueue T) → m ≤ n → NotBefore n q → NotBefore m q
  NotBefore-mono m n [] h b = tt
  NotBefore-mono m n (d ∷ q) h b = (omega arith, NotBefore-mono m n q h b.1)

  heap_pop-Bounds :
      (next : Option ℕ) (q rest : DelayQueue T) (d : Delayed T)
      → Bounds next q
      → heap_pop q ≡ some (d, rest)
      → Bounds next rest
  unfolding heap_pop
  heap_pop-Bounds next [] rest d b e = absurd (cc)
  heap_pop-Bounds next (x ∷ q) rest d b e = elim (Option-cases (heap_pop q)) [
    | inl p ↦ let same : rest ≡ [] = ground arith in rw same tt
    | inr ((first, others), p) ↦ elim (Bool-cases (leb x.until first.until)) [
      | inl early ↦ let same : rest ≡ q = ground arith in rw same b.1
      | inr late ↦
          let same : rest ≡ x ∷ others = ground arith in
          rw same (b.0, heap_pop-Bounds next q others first b.1 p)
    ]
  ]

  try_pop-Bounds :
      (next : Option ℕ) (now : ℕ) (q rest : DelayQueue T) (v : T)
      → Bounds next q
      → try_pop now q ≡ (some v, rest)
      → Bounds next rest
  unfolding try_pop
  try_pop-Bounds next now q rest v b e = elim (Option-cases (heap_pop q)) [
    | inl p ↦ ground arith
    | inr ((first, others), p) ↦
        let same : rest ≡ others = ground arith in rw same (heap_pop-Bounds next q others first b p)
  ]

  next_available-none : (q : DelayQueue T) → next_available q ≡ none → q ≡ []
  unfolding next_available
  next_available-none q e = elim (heap_pop-cases q) [
    | inl (h, p) ↦ h
    | inr (d, rest, p, v) ↦ ground arith
  ]

  -- The arguments of `Bounds` may be written in another way.
  pub Bounds-cast :
      {next next' : Option ℕ} {q q' : DelayQueue T}
      → next ≡ next'
      → q ≡ q'
      → Bounds next q
      → Bounds next' q'
  Bounds-cast {next' = next'} {q = q} e e' b = subst (Bounds next') e' (subst (λ n. Bounds n q) e b)

  updated-Bounds :
      (instant next : Option ℕ) (q : DelayQueue T)
      → ((n : ℕ) → instant ≡ some n → NotBefore n q)
      → (instant ≡ none → q ≡ [])
      → Bounds next q
      → Bounds (updated_next_retry instant next) q
  updated-Bounds none next q early empty old = Bounds-cast refl (sym (empty refl)) tt
  updated-Bounds (some n) none q early empty old =
      Bounds-cast (sym (updated-unset n)) refl (Bounds-of n q (early n refl))
  updated-Bounds (some n) (some c) q early empty old = elim (updated-some n c) [
    | inl (sooner, e) ↦ Bounds-cast (sym e) refl (Bounds-of n q (early n refl))
    | inr (later, e) ↦ Bounds-cast (sym e) refl old
  ]

  push-Bounds :
      (n : ℕ) (v : T) (next : Option ℕ) (q : DelayQueue T)
      → Bounds next q
      → Bounds (updated_next_retry (some n) next) (record { value = v; until = n } ∷ q)
  push-Bounds n v none [] b =
      Bounds-cast {q = record { value = v; until = n } ∷ []} (sym (updated-unset n)) refl
        (omega arith, tt)
  push-Bounds n v none (d ∷ q) b = absurd b.0
  push-Bounds n v (some c) q b = elim (updated-some n c) [
    | inl (sooner, e) ↦
        Bounds-cast {q = record { value = v; until = n } ∷ q} (sym e) refl
          (omega arith, Bounds-of n q (NotBefore-mono n c q (omega arith) (Bounds-NotBefore c q b)))
    | inr (later, e) ↦ Bounds-cast {q = record { value = v; until = n } ∷ q} (sym e) refl (later, b)
  ]

  not_due :
      (now : ℕ) (q : DelayQueue T) (r : Option T × DelayQueue T)
      → Popped now q r
      → r.0 ≡ none
      → NotBefore (suc now) q
  not_due now q r (waits q' same early) e = early
  not_due now q r (gives d rest due first) e = absurd (cc)

  not_yet :
      (now : ℕ) (next : Option ℕ) (q : DelayQueue T)
      → Bounds next q
      → Option.get_or (Option.map (λ n. leb n now) next) false ≡ false
      → NotBefore (suc now) q
  not_yet now none [] b e = tt
  not_yet now none (d ∷ q) b e = absurd b.0
  not_yet now (some n) q b e = NotBefore-mono (suc now) n q (ground arith) (Bounds-NotBefore n q b)

module _ {ℓ} {I O E Q : Type ℓ} where
  -- The instant of the next retry is set if a task waits for one, and no task is due before it.
  abbrev pub NextRetryBounds : Shared I O E Q → Type 0
  NextRetryBounds s = Bounds s.next_retry s.retry_queue

  -- Where the bound holds and no retry is found, none is due.
  pub pop_retry-none_due :
      (now : ℕ) (s t : Shared I O E Q)
      → NextRetryBounds s
      → pop_retry now s ≡ done none t
      → NotBefore (suc now) s.retry_queue
  unfolding pop_retry
  pop_retry-none_due now s t b e = elim (Bool-cases (has_retry now s)) [
    | inl due ↦ not_due now s.retry_queue _ (try_pop-Popped now s.retry_queue) (ground arith)
    | inr early ↦ not_yet now s.next_retry s.retry_queue b early
  ]

  -- Taking a retry keeps the bound.
  pub pop_retry-NextRetryBounds :
      (now : ℕ) (found : Option (Task I)) (s t : Shared I O E Q)
      → NextRetryBounds s
      → pop_retry now s ≡ done found t
      → NextRetryBounds t
  unfolding pop_retry update_next_retry
  pop_retry-NextRetryBounds now found s t b e = elim (Bool-cases (has_retry now s)) [
    | inr early ↦ let same : t ≡ s = ground arith in subst NextRetryBounds (sym same) b
    | inl due ↦ elim (Option-cases (try_pop now s.retry_queue).0) [
      | inl waits_on ↦
          let same : t.retry_queue ≡ s.retry_queue =
            ground (arith, try_pop-none now s.retry_queue (try_pop now s.retry_queue).1) in
          let next : t.next_retry ≡ s.next_retry = ground arith in
          Bounds-cast (sym next) (sym same) b
      | inr (v, given) ↦
          let rest = (try_pop now s.retry_queue).1 in
          let queue : t.retry_queue ≡ rest = ground arith in
          let next : t.next_retry ≡ updated_next_retry (next_available rest) s.next_retry =
            ground arith in
          Bounds-cast (sym next) (sym queue) (
            updated-Bounds (next_available rest) s.next_retry rest (next_available-bound rest)
              (next_available-none rest)
              (try_pop-Bounds s.next_retry now s.retry_queue rest v b (ground arith)))
    ]
  ]

  -- Queueing a retry keeps the bound.
  pub queue_retry-NextRetryBounds :
      (now : ℕ) (input : I) (ctx : Context) (tx : Option ℕ) (s t : Shared I O E Q)
      → NextRetryBounds s
      → queue_retry now input ctx tx s ≡ done tt t
      → NextRetryBounds t
  unfolding queue_retry push_retry update_next_retry push new_delayed new_task
  queue_retry-NextRetryBounds now input ctx tx s t b e = elim (retry_delay-cases ctx s) [
    | inr no_delay ↦ ground arith
    | inl (delay, d) ↦
        let task : Task I = record { input = input; ctx = ctx; outcome_tx = tx } in
        let queue : t.retry_queue ≡ record { value = task; until = now + delay } ∷ s.retry_queue =
          ground arith in
        let next : t.next_retry ≡ updated_next_retry (some (now + delay)) s.next_retry =
          ground arith in
        Bounds-cast (sym next) (sym queue)
          (push-Bounds (now + delay) task s.next_retry s.retry_queue b)
  ]
