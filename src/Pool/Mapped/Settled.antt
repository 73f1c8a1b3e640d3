-- ===== src/Pool/Mapped/Settled.antt =====
-- src/hive/hive.rs, `execute`: a client's tasks when the worker of one of them has returned.
use procpool.Common.{
  ℕ, ◌+◌, ◌<◌, inl, inr, ◌-◌, ◌≡◌, refl, ap, ◌∙◌, subst, List, [], ◌∷◌, ◌++◌, map, length,
  length-append, true, false, err, done, arith, All, All-append, All-middle,
}
use procpool.Bee.{WorkerResult, retryable, inc_attempt}
use procpool.Hive.Thread.Fate.{outcome_index}
use procpool.Hive.Thread.{settle}
use procpool.Outcome.{Outcome, from_worker_result, index}
use procpool.Pool.{System, is_requeued}
use procpool.Pool.Frames.{settle-sent, settle-again}
use procpool.Pool.Invariant.{length-middle}
use procpool.Pool.Mapped.Invariant.{Tracked, Answer, Mapped, sent}
use procpool.Pool.Mapped.Tries.{
  allowed, last_result, last_result-again, last_result-Final, can_retry-allowed,
  is_requeued-allowed,
}
use procpool.Pool.Occurs.{one, occurs}
use procpool.Shared.{Task, Shared}
use procpool.Shared.Tasks.{sent_on, new_task}
use procpool.Shared.Retry.{can_retry}

module _ {ℓ} {I O E Q : Type ℓ} where
  sent_on_self :
      (c : ℕ) (o : Outcome I O E) (s : Shared I O E Q)
      → sent_on c o s c ≡ record (s.channels c) { sent = (s.channels c).sent ++ o ∷ [] }
  unfolding sent_on
  sent_on_self c o s = ground arith

occurs_index-append {ℓ} :
    {I O E : Type ℓ} (k : ℕ) (os : List (Outcome I O E)) (o : Outcome I O E)
    → occurs k (map index (os ++ o ∷ [])) ≡ occurs k (map index os) + one k (index o)
occurs_index-append k [] o = omega arith
occurs_index-append k (x ∷ os) o = omega (arith, occurs_index-append k os o)

module _ {ℓ} {I O E Q : Type ℓ} (work : I → ℕ → WorkerResult I O E) (limit c : ℕ) {inputs : List I}
    {s : System I O E Q} (m : Mapped work limit c inputs s) (now : ℕ) (t : Shared I O E Q)
    (pre post : List (Task I)) (x : Task I) (split : s.running ≡ pre ++ x ∷ post)
    (result : WorkerResult I O E) (answer : work x.input x.ctx.attempt ≡ result)
    (e : settle now x.ctx x.outcome_tx result s.shared ≡ done tt t) where
  taken : Tracked work limit c inputs x × All (Tracked work limit c inputs) (pre ++ post)
  taken =
      All-middle (Tracked work limit c inputs) pre post x
        (subst (All (Tracked work limit c inputs)) split m.running)

  -- What the input of a task that is not tried again comes to.
  last_result-here :
      (v : I)
      → last_result work limit v 0 ≡ last_result work (limit - x.ctx.attempt) x.input x.ctx.attempt
      → is_requeued x.ctx result s.shared ≡ false
      → last_result work limit v 0 ≡ result
  last_result-here v same stops = same ∙ elim (is_requeued-allowed x.ctx result s.shared stops) [
    | inl f ↦ last_result-Final work (limit - x.ctx.attempt) x.input x.ctx.attempt result answer f
    | inr none_left ↦
        let no_more : limit - x.ctx.attempt ≡ 0 = omega (arith, m.limited) in
        ap (λ n. last_result work n x.input x.ctx.attempt) no_more ∙ answer
  ]

  pub settles-Mapped :
      is_requeued x.ctx result s.shared ≡ false
      → Mapped work limit c inputs (record s {
        shared = t;
        running = pre ++ post;
        finishing = s.finishing + 1;
        delivered = x.ctx.index ∷ s.delivered;
      })
  settles-Mapped stops =
      let (tx, v, submitted, same_last) = taken.0 in
      let o : Outcome I O E = from_worker_result result x.ctx.index in
      let at : index o ≡ x.ctx.index = outcome_index result x.ctx.index in
      let same : t ≡ record s.shared { channels = sent_on c o s.shared } =
        settle-sent s.shared t now c x.ctx result stops m.live
          (subst (λ tx. settle now x.ctx tx result s.shared ≡ done tt t) tx e) in
      let mail : t.channels c
          ≡ record (s.shared.channels c) { sent = sent work limit c s ++ o ∷ [] } =
        ap (λ u. u.channels c) same ∙ sent_on_self c o s.shared in
      let sent_now : (t.channels c).sent ≡ sent work limit c s ++ o ∷ [] =
        ap (λ ch. ch.sent) mail in
      let answered_now : Answer work limit inputs o =
        (v, rw at submitted, rw (at, last_result-here v same_last stops) refl) in
      record {
        prepared = m.prepared;
        queued = rw (ap (λ u. u.task_rx) same) m.queued;
        again = rw (ap (λ u. u.retry_queue) same) m.again;
        limited = ap (λ u. allowed u.config) same ∙ m.limited;
        received = m.received;
        running = taken.1;
        live = ap (λ ch. ch.connected) mail ∙ m.live;
        answered = rw sent_now (
            All-append (Answer work limit inputs) (sent work limit c s) (o ∷ []) m.answered
              (answered_now, tt));
        counted = λ k. rw sent_now (
            omega
              (arith, occurs_index-append k (sent work limit c s) o, m.counted k, ap (one k) at));
        none_lost = m.none_lost;
        created = m.created;
        total =
            rw (sent_now, ap (λ u. u.task_rx) same, ap (λ u. u.retry_queue) same)
              (omega (
                arith,
                m.total,
                ap length split ∙ length-middle pre post x,
                length-append (sent work limit c s) (o ∷ []),
              ));
      }

  pub tries-Mapped :
      (input : I) (error : E)
      → result ≡ err (retryable input error)
      → can_retry x.ctx s.shared ≡ true
      → Mapped work limit c inputs
          (record s { shared = t; running = pre ++ post; finishing = s.finishing + 1 })
  unfolding new_task inc_attempt
  tries-Mapped input error is_retryable again =
      let (tx, v, submitted, same_last) = taken.0 in
      let (at, retries, tasks, mail, config, up) =
        settle-again s.shared t now x.ctx x.outcome_tx input error again
          (subst (λ r. settle now x.ctx x.outcome_tx r s.shared ≡ done tt t) is_retryable e) in
      let more : x.ctx.attempt < limit =
        ground (arith, can_retry-allowed x.ctx s.shared, m.limited) in
      let next : Tracked work limit c inputs (new_task input (inc_attempt x.ctx) x.outcome_tx) = (
        tx,
        v,
        submitted,
        same_last
            ∙ last_result-again work limit x.input input x.ctx.attempt error (answer ∙ is_retryable)
                more,
      ) in
      record {
        prepared = m.prepared;
        queued = rw tasks m.queued;
        again = rw retries (next, m.again);
        limited = ap allowed config ∙ m.limited;
        received = m.received;
        running = taken.1;
        live = rw mail m.live;
        answered = rw mail m.answered;
        counted = λ k. rw mail (m.counted k);
        none_lost = m.none_lost;
        created = m.created;
        total =
            rw (mail, tasks, retries)
              (omega (arith, m.total, ap length split ∙ length-middle pre post x));
      }
