-- ===== src/Pool/Notify.antt =====
-- src/hive/shared.rs and src/hive/gate.rs: which steps end the wait in `join`, and whether they notify
-- the gate.
use procpool.Common.{
  ℕ, ◌^◌, ◌<◌, ◌≤◌, ◌≡◌, refl, ap, ◌⊎◌, inl, inr, Option, List, [], ◌∷◌, length, length-append,
  Bool, true, false, done, ok, arith,
}
use procpool.Config.{Config}
use procpool.Hive.{join_waits}
use procpool.Hive.Submit.{send_task}
use procpool.Outcome.Store.{Outcomes}
use procpool.Pool.{
  System, Step, Reach, init, prepares, reserves, makes, sends, pops, finds_none, receives,
  activates, settles, unwinds, retry_panics, finishes, suspends, clones, drops_clone, takes_stored,
  takes_unprocessed, later,
}
use procpool.Pool.Counts.{
  send_task-waiting, receive-waiting, pop_retry-waiting, pop_retry-none, waiting,
}
use procpool.Pool.Invariant.{queued, active, length-middle}
use procpool.Pool.Join.{join_waits-Reach}
use procpool.Pool.Mapped.{Never}
use procpool.Pool.Totals.{pop_retry-frame}
use procpool.Shared.{
  Task, Channel, Shared, referrer_is_cloning, referrer_is_dropping, set_suspended,
  set_suspended_notifying, finish_task, finish_task_notifying, no_work_notify_all, join_gate,
}
use procpool.Shared.Queue.{receive, ends}
use procpool.Shared.Tasks.{prepare_task, reserve}
use procpool.Shared.Teardown.{take_outcomes}
use procpool.Shared.Teardown.Taken.{take_unprocessed-only}

module _ {ℓ} {I O E Q : Type ℓ} where
  -- A step of `finish_task` that notifies the gate of `join`, or a step that suspends the hive and
  -- notifies no gate.
  abbrev pub NotifiesOrSuspends : {threads : ℕ} {s t : System I O E Q} → Step threads s t → Type ℓ
  NotifiesOrSuspends {s = s} {t} (finishes panicking _ _) =
      finish_task_notifying panicking s.shared ≡ done (join_gate ∷ []) t.shared
  NotifiesOrSuspends {s = s} {t} (suspends b changed _) =
      (b ≡ true) × (set_suspended_notifying b s.shared ≡ done (changed, []) t.shared)
  NotifiesOrSuspends _ = Never

  -- No work has gone.
  abbrev StillWork : System I O E Q → System I O E Q → Type 0
  StillWork s t =
      (0 < active t)
      ⊎ ((active s ≡ active t)
          × (queued s ≤ queued t)
          × ((t.shared.suspended ≡ s.shared.suspended) ⊎ (t.shared.suspended ≡ false)))

  module _ (s t : Shared I O E Q) where
    pub prepare_task-rest :
        (input : I) (tx : Option ℕ) (x : Task I)
        → prepare_task input tx s ≡ done x t
        → (waiting t ≡ waiting s) × (t.suspended ≡ s.suspended)
    unfolding prepare_task
    prepare_task-rest input tx x e = ground arith

    reserve-rest :
        (n : ℕ) (indices : List ℕ)
        → reserve n s ≡ done indices t
        → (waiting t ≡ waiting s) × (t.suspended ≡ s.suspended)
    unfolding reserve
    reserve-rest n indices e = ground arith

    send_task-rest : (x : Task I) (i : ℕ) → send_task x s ≡ done i t → t.suspended ≡ s.suspended
    unfolding send_task
    send_task-rest x i e = ground arith

    clone-rest :
        (n : ℕ)
        → referrer_is_cloning s ≡ done n t
        → (waiting t ≡ waiting s) × (t.suspended ≡ s.suspended)
    unfolding referrer_is_cloning
    clone-rest n e = ground arith

    drop-rest :
        (n : ℕ)
        → referrer_is_dropping s ≡ done n t
        → (waiting t ≡ waiting s) × (t.suspended ≡ s.suspended)
    unfolding referrer_is_dropping
    drop-rest n e = ground arith

    take_outcomes-rest :
        (stored : Outcomes I O E)
        → take_outcomes s ≡ done stored t
        → (waiting t ≡ waiting s) × (t.suspended ≡ s.suspended)
    unfolding take_outcomes
    take_outcomes-rest stored e = ground arith

    resume-rest :
        (changed : Bool)
        → set_suspended false s ≡ done changed t
        → (waiting t ≡ waiting s) × (t.suspended ≡ false)
    unfolding set_suspended
    resume-rest changed e = ground arith

    receive-rest : (x : Task I) → receive false s ≡ done (ends (ok x)) t → t.suspended ≡ s.suspended
    unfolding receive
    receive-rest x e = ground arith

  finish_task-notifies :
      (panicking : Bool) (s t : Shared I O E Q)
      → finish_task panicking s ≡ done tt t
      → join_waits t ≡ false
      → finish_task_notifying panicking s ≡ done (join_gate ∷ []) t
  unfolding finish_task no_work_notify_all join_waits
  finish_task-notifies panicking s t e idle = ground arith

  suspend-quiet :
      (changed : Bool) (s t : Shared I O E Q)
      → set_suspended true s ≡ done changed t
      → set_suspended_notifying true s ≡ done (changed, []) t
  unfolding set_suspended
  suspend-quiet changed s t e = ground arith

  Step-StillWork :
      {threads : ℕ} {s t : System I O E Q} (step : Step threads s t)
      → join_waits t.shared ≡ false
      → NotifiesOrSuspends step ⊎ StillWork s t
  unfolding no_work_notify_all join_waits
  Step-StillWork {s = s} (prepares input tx x e) after =
      let (same, up) = prepare_task-rest s.shared _ input tx x e in
      inr (inr (refl, omega arith, inl up))
  Step-StillWork {s = s} (reserves n indices e) after =
      let (same, up) = reserve-rest s.shared _ n indices e in
      inr (inr (refl, omega (arith, length-append indices s.reserved), inl up))
  Step-StillWork (makes pre post i input tx e) after =
      inr (inr (refl, omega (arith, ap length e, length-middle pre post i), inl refl))
  Step-StillWork {s = s} (sends pre post x i e sent) after = inr (
      inr (
        refl,
        omega (
          arith,
          (send_task-waiting x i s.shared _ sent).1,
          ap length e,
          length-middle pre post x,
        ),
        inl (send_task-rest s.shared _ x i sent),
      ))
  Step-StillWork {s = s} (pops now x room e) after = inr (
      inr (
        refl,
        omega (arith, (pop_retry-waiting now x s.shared _ e).1),
        inl (pop_retry-frame now _ s.shared _ e).1,
      ))
  Step-StillWork {s = s} (finds_none now e) after = inr (
      inr (
        refl,
        omega (arith, (pop_retry-none now s.shared _ e).1),
        inl (pop_retry-frame now _ s.shared _ e).1,
      ))
  Step-StillWork {s = s} (receives x room e) after = inr (
      inr (
        refl,
        omega (arith, (receive-waiting false x s.shared _ e).1),
        inl (receive-rest s.shared _ x e),
      ))
  Step-StillWork (activates pre post x e moved) after = inr (inl (omega arith))
  Step-StillWork (settles now pre post x result e settled) after = inr (inl (omega arith))
  Step-StillWork (unwinds pre post x e) after = inr (inl (omega arith))
  Step-StillWork (retry_panics pre post x input error e again over) after = inr (inl (omega arith))
  Step-StillWork {s = s} (finishes {t} panicking busy e) after =
      inl (finish_task-notifies panicking s.shared t e after)
  Step-StillWork {s = s} (suspends {t} true changed e) after =
      inl (refl, suspend-quiet changed s.shared t e)
  Step-StillWork {s = s} (suspends false changed e) after =
      let (same, up) = resume-rest s.shared _ changed e in inr (inr (refl, omega arith, inr up))
  Step-StillWork {s = s} (clones n e) after =
      let (same, up) = clone-rest s.shared _ n e in inr (inr (refl, omega arith, inl up))
  Step-StillWork {s = s} (drops_clone n e left) after =
      let (same, up) = drop-rest s.shared _ n e in inr (inr (refl, omega arith, inl up))
  Step-StillWork {s = s} (takes_stored stored e) after =
      let (same, up) = take_outcomes-rest s.shared _ stored e in
      inr (inr (refl, omega arith, inl up))
  Step-StillWork {s = s} (takes_unprocessed {t} taken e) after =
      let only = take_unprocessed-only s.shared t taken e in
      let same = ap waiting only in inr (inr (refl, omega arith, inl (ap (λ u. u.suspended) only)))

  module _ {threads : ℕ} (small : threads < 2 ^ 16) (config : Config) (queen : Q)
      (channels : ℕ → Channel I O E) (s t : System I O E Q)
      (r : Reach threads (init config queen channels) s) (step : Step threads s t) where
    -- Where a step of a hive with less than 2^16 threads ends the wait in `join`, which then was
    -- waiting for its condition, the step is the end of a task, in which `finish_task` notifies the gate
    -- of `join` in the state that it leaves, or it suspends the hive, and then `set_suspended` notifies
    -- no gate.
    pub join_waits-NotifiesOrSuspends :
        join_waits s.shared ≡ true → join_waits t.shared ≡ false → NotifiesOrSuspends step
    join_waits-NotifiesOrSuspends before after =
        let no_more = (join_waits-Reach small config queen channels t (later r step)).0 after in
        elim (Step-StillWork step after) [
          | inl told ↦ told
          | inr (inl busy) ↦ absurd (omega (arith, no_more.0))
          | inr (inr (same, more, flag)) ↦
              absurd (ground (arith, (join_waits-Reach small config queen channels s r).1, no_more))
        ]
