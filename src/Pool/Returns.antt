-- ===== src/Pool/Returns.antt =====
-- src/hive/hive.rs, `execute`: the step of a thread whose worker has returned.
use procpool.Common.{
  ℕ, ◌≤◌, sym, err, true, Bool-cases, ◌^◌, ◌<◌, ◌≡◌, refl, ap, ◌∙◌, inl, inr, List, [], ◌∷◌, length,
  false, arith,
}
use procpool.Bee.{returned, WorkerResult, retryable, inc_attempt}
use procpool.Config.{Config}
use procpool.Pool.{is_requeued, System, Reach, init, settles}
use procpool.Pool.Frames.{settle-again}
use procpool.Pool.Invariant.{Reach-Inv}
use procpool.Pool.Mapped.Tries.{allowed, can_retry-allowed, is_requeued-retryable}
use procpool.Shared.Retry.{can_retry}
use procpool.Shared.Tasks.{new_task}
use procpool.Pool.Totals.{settle_total, settle_again_total}
use procpool.Shared.{Task, Channel}
use procpool.Pool.Works.{weigh, steps_again, undone, Onward}

module _ {ℓ} {I O E Q : Type ℓ} where
  module _ (work : I → ℕ → WorkerResult I O E) (limit : ℕ) {threads : ℕ} (small : threads < 2 ^ 16)
      (config : Config) (queen : Q) (channels : ℕ → Channel I O E) (s : System I O E Q)
      (r : Reach threads (init config queen channels) s) (no_batch : s.reserved ≡ [])
      (awake : s.shared.suspended ≡ false) (few_tries : limit ≤ 64)
      (limited : allowed s.shared.config ≡ limit) (room : undone s < 2 ^ 48) where
    settles-Onward :
        (x : Task I) (rest : List (Task I)) (result : WorkerResult I O E)
        → s.running ≡ x ∷ rest
        → result ≡ work x.input x.ctx.attempt
        → is_requeued x.ctx result s.shared ≡ false
        → Onward work limit threads s
    settles-Onward x rest result e answer stops =
        let (t, done_so, same) = settle_total 0 x.ctx x.outcome_tx result s.shared stops in
        record {
          next = _;
          step = settles 0 [] rest x result e done_so;
          answers = ap returned answer;
          fewer = omega (
            arith,
            ap length e,
            ap length same.tasks,
            ap length same.retries,
            ap (weigh (steps_again limit)) e,
            ap (weigh (steps_again limit)) same.tasks,
            ap (weigh (λ d. steps_again limit d.value)) same.retries,
          );
          no_batch = no_batch;
          awake = same.suspended ∙ awake;
          limited = ap allowed same.config ∙ limited;
          no_more = omega (arith, ap length e, ap length same.tasks, ap length same.retries);
        }

    tries-Onward :
        (x : Task I) (rest : List (Task I)) (input : I) (error : E)
        → s.running ≡ x ∷ rest
        → err (retryable input error) ≡ work x.input x.ctx.attempt
        → can_retry x.ctx s.shared ≡ true
        → Onward work limit threads s
    unfolding new_task inc_attempt
    tries-Onward x rest input error e answer again =
        let more : x.ctx.attempt < limit =
          ground (arith, can_retry-allowed x.ctx s.shared, limited) in
        let (t, done_so) =
          settle_again_total 0 x.ctx x.outcome_tx input error s.shared
            (Reach-Inv small config queen channels s r).counts (omega (arith, ap length e))
            (omega arith) again in
        let (at, retries, tasks, mail, same_config, up) =
          settle-again s.shared t 0 x.ctx x.outcome_tx input error again done_so in
        record {
          next = _;
          step = settles 0 [] rest x (err (retryable input error)) e done_so;
          answers = ap returned answer;
          fewer = omega (
            arith,
            ap length e,
            ap length tasks,
            ap length retries,
            ap (weigh (steps_again limit)) e,
            ap (weigh (steps_again limit)) tasks,
            ap (weigh (λ d. steps_again limit d.value)) retries,
          );
          no_batch = no_batch;
          awake = up ∙ awake;
          limited = ap allowed same_config ∙ limited;
          no_more = omega (arith, ap length e, ap length tasks, ap length retries);
        }

    pub works-Onward :
        (x : Task I) (rest : List (Task I)) → s.running ≡ x ∷ rest → Onward work limit threads s
    works-Onward x rest e =
        let result = work x.input x.ctx.attempt in
        elim (Bool-cases (is_requeued x.ctx result s.shared)) [
          | inr stops ↦ settles-Onward x rest result e refl stops
          | inl again ↦
              let (input, error, is_retryable, can) =
                is_requeued-retryable x.ctx result s.shared again in
              tries-Onward x rest input error e (sym is_retryable) can
        ]
