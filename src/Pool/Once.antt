-- ===== src/Pool/Once.antt =====
-- src/hive/shared.rs, `prepare_task` and `prepare_batch`: the indices of the tasks of a hive whose
-- threads interleave.
use procpool.Common.{
  ℕ, suc, zero, ◌+◌, ◌%◌, ◌^◌, ◌<◌, ◌≤◌, ◌≡◌, refl, ap, sym, ◌∙◌, some, none, List, ◌++◌, length,
  false, arith, range, length-range, length-append,
}
use procpool.Config.{Config}
use procpool.Hive.{join_waits}
use procpool.Pool.{
  System, Step, Reach, init, prepares, reserves, makes, pops, finds_none, receives, activates,
  settles, unwinds, retry_panics, finishes, suspends, clones, drops_clone, takes_stored,
  takes_unprocessed, start, later,
}
use procpool.Pool.Conservation.{join-delivered}
use procpool.Pool.Issued.{
  below, occurs-range, prepare_task-next, reserve-next, send_task-next, pop_retry-next,
  receive-next, activate-next, finish_task-next, settle-next,
}
use procpool.Pool.Occurs.{occurs, occurs-append}
use procpool.Shared.{Channel, set_suspended, new, referrer_is_cloning, referrer_is_dropping}
use procpool.Shared.Teardown.{take_outcomes}
use procpool.Shared.Teardown.Taken.{take_unprocessed-only}

-- The next index `next` and the indices given out so far: the next is their number, and as long as
-- they are at most 2^64 they are the first numbers, each once.
pub record Issued (next : ℕ) (created : List ℕ) : Type 0 where
  pub follows : next ≡ length created % 2 ^ 64
  pub each_once : (k : ℕ) → length created ≤ 2 ^ 64 → occurs k created ≡ below k (length created)

Issued-next :
    {next next' : ℕ} {created : List ℕ} → Issued next created → next' ≡ next → Issued next' created
Issued-next h e = record { follows = e ∙ h.follows; each_once = h.each_once }

issue-once :
    (n next : ℕ) (created : List ℕ)
    → Issued next created
    → (k : ℕ) → n + length created ≤ 2 ^ 64
    → occurs k (range next n ++ created) ≡ below k (n + length created)
issue-once zero next created h k fits =
    let none_more : 0 + length created ≡ length created = omega arith in
    rw none_more (h.each_once k (omega arith))
issue-once (suc n) next created h k fits =
    let follows : next ≡ length created = omega (arith, h.follows) in
    let joined : next + suc n ≡ suc n + length created = omega (arith, follows) in
    let none_yet : occurs k created ≡ below k next =
      h.each_once k (omega arith) ∙ ap (below k) (sym follows) in
    let given : occurs k (range next (suc n) ++ created) ≡ below k (next + suc n) = omega (
      arith,
      occurs-append k (range next (suc n)) created,
      none_yet,
      occurs-range k next (suc n),
    ) in
    given ∙ ap (below k) joined

length-issue :
    (n next : ℕ) (created : List ℕ) → length (range next n ++ created) ≡ n + length created
length-issue n next created =
    omega (arith, length-append (range next n) created, length-range next n)

issue :
    (n next : ℕ) (created : List ℕ)
    → Issued next created
    → Issued ((next + n) % 2 ^ 64) (range next n ++ created)
issue n next created h = record {
  follows = omega (arith, h.follows, length-issue n next created);
  each_once = λ k fits.
      let len = length-issue n next created in
      issue-once n next created h k (omega arith) ∙ ap (below k) (sym len);
}

module _ {ℓ} {I O E Q : Type ℓ} where
  abbrev pub SystemIssued : System I O E Q → Type 0
  SystemIssued s = Issued s.shared.next_task_index s.created

  Step-Issued :
      {threads : ℕ} {s t : System I O E Q} → SystemIssued s → Step threads s t → SystemIssued t
  unfolding set_suspended referrer_is_cloning referrer_is_dropping take_outcomes
  Step-Issued {s = s} h (prepares {t} input tx x e) =
      let (given, next) = prepare_task-next input tx x s.shared t e in
      rw (given, next) (issue 1 s.shared.next_task_index s.created h)
  Step-Issued {s = s} h (reserves {t} n indices e) =
      let (given, next) = reserve-next n indices s.shared t e in
      rw (given, next) (issue n s.shared.next_task_index s.created h)
  Step-Issued {s = s} h (makes pre post i input tx split) = h
  Step-Issued {s = s} h (Step.sends {t} pre post x i split e) =
      Issued-next h (send_task-next x i s.shared t e)
  Step-Issued {s = s} h (pops {t} now x room e) =
      Issued-next h (pop_retry-next now (some x) s.shared t e)
  Step-Issued {s = s} h (finds_none {t} now e) =
      Issued-next h (pop_retry-next now none s.shared t e)
  Step-Issued {s = s} h (receives {t} x room e) = Issued-next h (receive-next x s.shared t e)
  Step-Issued {s = s} h (activates {t} pre post x split e) =
      Issued-next h (activate-next x s.shared t e)
  Step-Issued {s = s} h (settles {t} now pre post x result split e) =
      Issued-next h (settle-next now x.ctx x.outcome_tx result s.shared t e)
  Step-Issued {s = s} h (unwinds pre post x split) = h
  Step-Issued {s = s} h (retry_panics pre post x input error split again over) = h
  Step-Issued {s = s} h (finishes {t} panicking busy e) =
      Issued-next h (finish_task-next panicking s.shared t e)
  Step-Issued {s = s} h (suspends {t} b changed e) = Issued-next h (ground arith)
  Step-Issued {s = s} h (clones {t} n e) = Issued-next h (ground arith)
  Step-Issued {s = s} h (drops_clone {t} n e left) = Issued-next h (ground arith)
  Step-Issued {s = s} h (takes_stored {t} stored e) = Issued-next h (ground arith)
  Step-Issued {s = s} h (takes_unprocessed {t} taken e) =
      Issued-next h (ap (λ u. u.next_task_index) (take_unprocessed-only s.shared t taken e))

  pub Reach-Issued :
      {threads : ℕ} (config : Config) (queen : Q) (channels : ℕ → Channel I O E)
      (s : System I O E Q)
      → Reach threads (init config queen channels) s
      → SystemIssued s
  unfolding new
  Reach-Issued config queen channels s start = record {
    follows = refl;
    each_once = λ k fits. ground arith;
  }
  Reach-Issued config queen channels s (later r step) =
      Step-Issued (Reach-Issued config queen channels _ r) step

module _ {ℓ} {I O E Q : Type ℓ} {threads : ℕ} (small : threads < 2 ^ 16) (config : Config)
    (queen : Q) (channels : ℕ → Channel I O E) (s : System I O E Q)
    (r : Reach threads (init config queen channels) s) where
  -- In every state that the steps of a hive with less than 2^16 threads reach, in which the hive is not
  -- suspended, the condition on which `join` waits is false and at most 2^64 tasks have been made, each
  -- index below the number of those tasks belongs to exactly one task that was delivered, or that
  -- was lost in a panic of its worker or of the delay of its retry: no task is lost otherwise, none is
  -- delivered twice, and no two tasks share an index.
  pub join-once :
      (k : ℕ)
      → s.shared.suspended ≡ false
      → join_waits s.shared ≡ false
      → length s.created ≤ 2 ^ 64
      → k < length s.created
      → occurs k s.delivered + occurs k s.lost ≡ 1
  join-once k awake idle fits made =
      let h = Reach-Issued config queen channels s r in
      let once = h.each_once k fits in
      let all = join-delivered small config queen channels s r k awake idle in ground arith
