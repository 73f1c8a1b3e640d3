-- ===== src/Pool/StoredOrder.antt =====
-- src/hive/hive.rs, `execute`: the order in which threads store the outcomes of their tasks.
use procpool.Common.{ℕ, ◌≡◌, ◌≢◌, refl, sym, ◌∙◌, false, none, ok, err, done, ◌>>◌, arith}
use procpool.Common.Maps.{insert}
use procpool.Bee.{Context, WorkerResult, retryable, fatal, cancelled, panic_error}
use procpool.Config.{Config}
use procpool.Hive.Thread.{settle}
use procpool.Hive.Thread.Fate.{outcome_index}
use procpool.Outcome.{Outcome, from_worker_result, index}
use procpool.Outcome.Store.Kept.{insert-IsStore}
use procpool.Outcome.Store.Removal.{IsStore}
use procpool.Outcome.Store.View.{view, add, add_comm}
use procpool.Pool.{System, Reach, init, is_requeued}
use procpool.Pool.Stored.{outcomes-Reach}
use procpool.Shared.{Channel, Shared}
use procpool.Shared.Retry.{can_retry}
use procpool.Shared.Tasks.{send_or_store_outcome, deliver, add_outcome}

module _ {ℓ} {I O E Q : Type ℓ} where
  -- The state once an outcome is stored.
  abbrev with_outcome : Outcome I O E → Shared I O E Q → Shared I O E Q
  with_outcome o s = record s { outcomes = insert (index o) o s.outcomes }

  settle-with_outcome :
      (now : ℕ) (ctx : Context) (result : WorkerResult I O E) (s : Shared I O E Q)
      → is_requeued ctx result s ≡ false
      → settle now ctx none result s
        ≡ done tt (with_outcome (from_worker_result result ctx.index) s)
  unfolding settle send_or_store_outcome deliver add_outcome
  settle-with_outcome now ctx (ok v) s last = refl
  settle-with_outcome now ctx (err (retryable i x)) s last = ground arith
  settle-with_outcome now ctx (err (fatal i x)) s last = refl
  settle-with_outcome now ctx (err (cancelled i)) s last = refl
  settle-with_outcome now ctx (err (panic_error i p)) s last = refl

  -- The map plays no part in whether a task is queued again.
  is_requeued-with_outcome :
      (ctx : Context) (result : WorkerResult I O E) (o : Outcome I O E) (s : Shared I O E Q)
      → is_requeued ctx result (with_outcome o s) ≡ is_requeued ctx result s
  unfolding can_retry
  is_requeued-with_outcome ctx (ok v) o s = refl
  is_requeued-with_outcome ctx (err (retryable i x)) o s = refl
  is_requeued-with_outcome ctx (err (fatal i x)) o s = refl
  is_requeued-with_outcome ctx (err (cancelled i)) o s = refl
  is_requeued-with_outcome ctx (err (panic_error i p)) o s = refl

  -- One task after the other.
  settle_both :
      (now now' : ℕ) (ctx ctx' : Context) (r r' : WorkerResult I O E) (s : Shared I O E Q)
      → is_requeued ctx r s ≡ false
      → is_requeued ctx' r' s ≡ false
      → (do settle now ctx none r; settle now' ctx' none r') s
        ≡ done tt (
            with_outcome
              (from_worker_result r' ctx'.index)
              (with_outcome (from_worker_result r ctx.index) s))
  settle_both now now' ctx ctx' r r' s last last' =
      let o : Outcome I O E = from_worker_result r ctx.index in
      ground (
        arith,
        settle-with_outcome now ctx r s last,
        settle-with_outcome now' ctx' r' (with_outcome o s)
            (is_requeued-with_outcome ctx' r' o s ∙ last'),
      )

  -- In every state that the steps of a hive reach, two threads may settle their tasks in either order,
  -- where the tasks have different indices and no channel, and neither is queued again: both orders
  -- store both outcomes and leave the same view of the map of outcomes, that is the same entries,
  -- whatever the order in which the map iterates over them.
  pub settle-order :
      {threads : ℕ} (config : Config) (queen : Q) (channels : ℕ → Channel I O E)
      (s : System I O E Q)
      → Reach threads (init config queen channels) s
      → (now now' : ℕ) (ctx ctx' : Context) (r r' : WorkerResult I O E) → ctx.index ≢ ctx'.index
      → is_requeued ctx r s.shared ≡ false
      → is_requeued ctx' r' s.shared ≡ false
      → (t : Shared I O E Q) × (u : Shared I O E Q) × ((do
        settle now ctx none r
        settle now' ctx' none r')
            s.shared
          ≡ done tt t)
        × ((do settle now' ctx' none r'; settle now ctx none r) s.shared ≡ done tt u)
        × (v : IsStore t.outcomes) × (v' : IsStore u.outcomes) × (view t.outcomes v
            ≡ view u.outcomes v')
  unfolding add
  settle-order config queen channels s reached now now' ctx ctx' r r' apart last last' =
      let o : Outcome I O E = from_worker_result r ctx.index in
      let p : Outcome I O E = from_worker_result r' ctx'.index in
      let m = s.shared.outcomes in
      let v = (outcomes-Reach config queen channels s reached).is_store in
      (
        with_outcome p (with_outcome o s.shared),
        with_outcome o (with_outcome p s.shared),
        settle_both now now' ctx ctx' r r' s.shared last last',
        settle_both now' now ctx' ctx r' r s.shared last' last,
        insert-IsStore p (insert (index o) o m) (insert-IsStore o m v),
        insert-IsStore o (insert (index p) p m) (insert-IsStore p m v),
        add_comm p o (view m v) (λ same.
            apart (sym (outcome_index r ctx.index) ∙ sym same ∙ outcome_index r' ctx'.index)),
      )
