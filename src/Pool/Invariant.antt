-- ===== src/Pool/Invariant.antt =====
-- src/hive/counter.rs and src/hive/shared.rs: the counter of tasks while the threads of a hive
-- interleave.
use procpool.Common.{
  ℕ, ◌+◌, ◌^◌, ◌<◌, ◌≤◌, ◌≡◌, refl, ◌∙◌, subst, ap, List, ◌∷◌, ◌++◌, length, length-append, false,
  arith,
}
use procpool.Config.{Config}
use procpool.Counter
use procpool.Shared.{Channel, Shared, set_suspended, new, referrer_is_cloning, referrer_is_dropping}
use procpool.Shared.Teardown.{take_outcomes}
use procpool.Pool.{
  System, Step, Reach, threads_busy, init, prepares, reserves, makes, sends, pops, finds_none,
  receives, activates, settles, unwinds, retry_panics, finishes, suspends, clones, drops_clone,
  takes_stored, takes_unprocessed, start, later,
}
use procpool.Pool.Counts.{
  Counts, waiting, SameCounter, prepare_task-Counts, reserve-Counts, reserve-length,
  activate-Counts, finish_task-Counts, send_task-waiting, receive-waiting, pop_retry-waiting,
  pop_retry-none,
}
use procpool.Pool.Settle.{settle-Settled}
use procpool.Shared.Teardown.Taken.{take_unprocessed-only}

pub length-middle {ℓ} :
    {A : Type ℓ} (pre post : List A) (x : A) → length (pre ++ x ∷ post) ≡ length (pre ++ post) + 1
length-middle pre post x = omega (arith, length-append pre (x ∷ post), length-append pre post)

module _ {ℓ} {I O E Q : Type ℓ} where
  abbrev pub queued : System I O E Q → ℕ
  queued s = waiting s.shared + length s.reserved + length s.prepared + length s.received

  abbrev pub active : System I O E Q → ℕ
  active s = length s.running + s.finishing

  pub record Inv (threads : ℕ) (s : System I O E Q) : Type 0 where
    pub counts : Counts s.shared (queued s) (active s)
    pub alive : s.shared.poisoned ≡ false
    pub room : threads_busy s ≤ threads

  -- The numbers in a counter may be written in another way.
  Counts-cast :
      {t : Shared I O E Q} {q a q' a' : ℕ} → Counts t q a → q ≡ q' → a ≡ a' → Counts t q' a'
  Counts-cast {t = t} {a = a} {q' = q'} c e e' =
      subst (Counts t q') e' (subst (λ n. Counts t n a) e c)

  pub kept-Counts :
      {s t : Shared I O E Q} {q a : ℕ} → Counts s q a → t.num_tasks ≡ s.num_tasks → Counts t q a
  kept-Counts c e = record {
    word = e ∙ c.word;
    queued_fits = c.queued_fits;
    active_fits = c.active_fits;
  }

  -- What a step does that leaves the counter and the queues alone.
  kept :
      {threads : ℕ} (s : System I O E Q) (t : Shared I O E Q)
      → Inv threads s
      → SameCounter s.shared t
      → waiting t ≡ waiting s.shared
      → Inv threads (record s { shared = t })
  kept s t i same e = record {
    counts = Counts-cast (kept-Counts i.counts same.0) (omega arith) refl;
    alive = same.1 ∙ i.alive;
    room = i.room;
  }

  module _ {threads : ℕ} (small : threads < 2 ^ 16) where
    pub Step-Inv : {s t : System I O E Q} → Inv threads s → Step threads s t → Inv threads t
    unfolding set_suspended referrer_is_cloning referrer_is_dropping take_outcomes
    Step-Inv i (prepares input tx x e) =
        let (c, w, p) = prepare_task-Counts i.counts input tx x e in
        record { counts = Counts-cast c (omega arith) refl; alive = p ∙ i.alive; room = i.room }
    Step-Inv {s} i (reserves n indices e) =
        let (c, w, p) = reserve-Counts i.counts n indices e in
        let size = reserve-length n indices s.shared _ e in
        let both = length-append indices s.reserved in
        record { counts = Counts-cast c (omega arith) refl; alive = p ∙ i.alive; room = i.room }
    Step-Inv {s} i (makes pre post j input tx split) =
        let longer : length s.reserved ≡ length (pre ++ post) + 1 =
          ap length split ∙ length-middle pre post j in
        record { counts = Counts-cast i.counts (omega arith) refl; alive = i.alive; room = i.room }
    Step-Inv {s} i (sends {t} pre post x k split e) =
        let longer : length s.prepared ≡ length (pre ++ post) + 1 =
          ap length split ∙ length-middle pre post x in
        let (same, w) = send_task-waiting x k _ t e in
        record {
          counts = Counts-cast (kept-Counts i.counts same.0) (omega arith) refl;
          alive = same.1 ∙ i.alive;
          room = i.room;
        }
    Step-Inv i (pops {t} now x h e) =
        let (same, w) = pop_retry-waiting now x _ t e in
        record {
          counts = Counts-cast (kept-Counts i.counts same.0) (omega arith) refl;
          alive = same.1 ∙ i.alive;
          room = omega arith;
        }
    Step-Inv i (finds_none {t} now e) =
        let (same, w) = pop_retry-none now _ t e in kept _ t i same w
    Step-Inv i (receives {t} x h e) =
        let (same, w) = receive-waiting false x _ t e in
        record {
          counts = Counts-cast (kept-Counts i.counts same.0) (omega arith) refl;
          alive = same.1 ∙ i.alive;
          room = omega arith;
        }
    Step-Inv {s} i (activates pre post x split e) =
        let longer : length s.received ≡ length (pre ++ post) + 1 =
          ap length split ∙ length-middle pre post x in
        let (c, w, p) = activate-Counts i.counts x (omega arith) e in
        record {
          counts = Counts-cast c (omega arith) (omega arith);
          alive = p ∙ i.alive;
          room = omega arith;
        }
    Step-Inv {s} i (settles now pre post x result split e) =
        let longer : length s.running ≡ length (pre ++ post) + 1 =
          ap length split ∙ length-middle pre post x in
        let settled = settle-Settled i.counts _ now x.ctx x.outcome_tx result e in
        let queues = settled.queues in
        record {
          counts = Counts-cast settled.counts (omega arith) (omega arith);
          alive = settled.alive ∙ i.alive;
          room = omega arith;
        }
    Step-Inv {s} i (unwinds pre post x split) =
        let longer : length s.running ≡ length (pre ++ post) + 1 =
          ap length split ∙ length-middle pre post x in
        record {
          counts = Counts-cast i.counts refl (omega arith);
          alive = i.alive;
          room = omega arith;
        }
    Step-Inv {s} i (retry_panics pre post x input error split again over) =
        let longer : length s.running ≡ length (pre ++ post) + 1 =
          ap length split ∙ length-middle pre post x in
        record {
          counts = Counts-cast i.counts refl (omega arith);
          alive = i.alive;
          room = omega arith;
        }
    Step-Inv i (finishes panicking h e) =
        let (c, w, p) = finish_task-Counts i.counts panicking e in
        record {
          counts = Counts-cast c (omega arith) (omega arith);
          alive = p ∙ i.alive;
          room = omega arith;
        }
    Step-Inv i (suspends {t} b changed e) = kept _ t i (ground arith) (ground arith)
    Step-Inv i (clones {t} n e) = kept _ t i (ground arith) (ground arith)
    Step-Inv i (drops_clone {t} n e left) = kept _ t i (ground arith) (ground arith)
    Step-Inv i (takes_stored {t} stored e) = kept _ t i (ground arith) (ground arith)
    Step-Inv {s} i (takes_unprocessed {t} taken e) =
        let only = take_unprocessed-only s.shared t taken e in
        kept _ t i (ap (λ u. u.num_tasks) only, ap (λ u. u.poisoned) only) (ap waiting only)

    -- The invariant holds in every state that the steps reach.
    pub Reach-Inv :
        (config : Config) (queen : Q) (channels : ℕ → Channel I O E) (s : System I O E Q)
        → Reach threads (init config queen channels) s
        → Inv threads s
    unfolding new Counter.default
    Reach-Inv config queen channels s start = record {
      counts = record { word = refl; queued_fits = omega arith; active_fits = omega arith };
      alive = refl;
      room = omega arith;
    }
    Reach-Inv config queen channels s (later r step) =
        Step-Inv (Reach-Inv config queen channels _ r) step
