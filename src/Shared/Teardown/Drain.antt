-- ===== src/Shared/Teardown/Drain.antt =====
-- src/hive/shared.rs: what becomes of the tasks that a hive drops.
use mathlib.Core.List.{append-nil, append_assoc}
use procpool.Common.{
  ℕ, ◌≡◌, refl, sym, ap, ◌∙◌, List, [], ◌∷◌, ◌++◌, Option, none, some, Bool, true, false, ◌==◌,
  if◌then◌else◌, done, arith, inl, inr, Bool-cases, Option-cases, ◌⊎◌, ==_iff,
}
use procpool.Common.Maps.{get, insert, get-insert}
use procpool.Outcome.{Outcome, unprocessed, index}
use procpool.Shared.{Task, Shared}
use procpool.Shared.Tasks.{
  send_or_store, send_or_store_task, into_unprocessed_try_send, into_unprocessed, deliver,
  try_send_msg, sent_on, add_outcome,
}

module _ {ℓ} {I : Type ℓ} where
  -- Whether the outcome of a task is sent, where `live` tells the channels whose receiver lives.
  abbrev pub is_sent : (ℕ → Bool) → Task I → Bool
  is_sent live x = elim x.outcome_tx [ none ↦ false | some tx ↦ live tx ]

  abbrev pub is_sent_to : (ℕ → Bool) → ℕ → Task I → Bool
  is_sent_to live c x = elim x.outcome_tx [
    | none ↦ false
    | some tx ↦ if tx == c then live tx else false
  ]

module _ {ℓ} {I O E : Type ℓ} where
  abbrev pub unprocessed_of : Task I → Outcome I O E
  unprocessed_of x = unprocessed x.input x.ctx.index

  -- What the tasks add to the channel `c`.
  abbrev pub sent_to : (ℕ → Bool) → ℕ → List (Task I) → List (Outcome I O E)
  sent_to live c [] = []
  sent_to live c (x ∷ xs) =
      if is_sent_to live c x then unprocessed_of x ∷ sent_to live c xs else sent_to live c xs

  -- What is stored under `i` once the tasks that are not sent are stored.
  abbrev pub stored_at :
      (ℕ → Bool) → ℕ → List (Task I) → Option (Outcome I O E) → Option (Outcome I O E)
  stored_at live i [] old = old
  stored_at live i (x ∷ xs) old =
      stored_at live i xs
        (if is_sent live x then old else if x.ctx.index == i then some (unprocessed_of x) else old)

  sent_to-append :
      (live : ℕ → Bool) (c : ℕ) (xs ys : List (Task I))
      → sent_to live c (xs ++ ys) ≡ sent_to live c xs ++ sent_to live c ys
  sent_to-append live c [] ys = refl
  sent_to-append live c (x ∷ xs) ys = ground (arith, sent_to-append live c xs ys)

  stored_at-append :
      (live : ℕ → Bool) (i : ℕ) (xs ys : List (Task I)) (old : Option (Outcome I O E))
      → stored_at live i (xs ++ ys) old ≡ stored_at live i ys (stored_at live i xs old)
  stored_at-append live i [] ys old = refl
  stored_at-append live i (x ∷ xs) ys old = stored_at-append live i xs ys _

module _ {ℓ} {I O E Q : Type ℓ} where
  abbrev pub live : Shared I O E Q → ℕ → Bool
  live s c = (s.channels c).connected

  -- Each of the tasks was turned into an unprocessed outcome, which was sent in order or stored.
  pub record Drained (s : Shared I O E Q) (xs : List (Task I)) (t : Shared I O E Q) : Type ℓ where
    pub same_live : live t ≡ live s
    pub sent : (c : ℕ) → (t.channels c).sent ≡ (s.channels c).sent ++ sent_to (live s) c xs
    pub stored : (i : ℕ) → get i t.outcomes ≡ stored_at (live s) i xs (get i s.outcomes)

  abbrev pub SameQueues : Shared I O E Q → Shared I O E Q → Type ℓ
  SameQueues s t =
      (t.task_rx ≡ s.task_rx) × (t.retry_queue ≡ s.retry_queue) × (t.num_tasks ≡ s.num_tasks)

  -- The state after the outcome of one task is sent, or stored.
  with_sent : (c : ℕ) → Outcome I O E → Shared I O E Q → Shared I O E Q
  with_sent c o s = record s { channels = sent_on c o s }

  with_stored : Outcome I O E → Shared I O E Q → Shared I O E Q
  with_stored o s = record s { outcomes = insert (index o) o s.outcomes }

  -- Sending changes no channel's receiver.
  live-with_sent :
      (c : ℕ) (o : Outcome I O E) (s : Shared I O E Q) (j : ℕ) → live (with_sent c o s) j ≡ live s j
  unfolding with_sent sent_on
  live-with_sent c o s j = ground (arith, ==_iff c j, ap (live s))

  with_stored-Drained :
      (x : Task I) (s : Shared I O E Q)
      → is_sent (live s) x ≡ false
      → Drained s (x ∷ []) (with_stored (unprocessed_of x) s)
  unfolding with_stored index
  with_stored-Drained x s e = record {
    same_live = refl;
    sent = λ j. not_sent_to j;
    stored = λ j. get-insert x.ctx.index j (unprocessed_of x) s.outcomes ∙ rw e refl;
  }
    where
      not_sent_to :
          (j : ℕ) → (s.channels j).sent ≡ (s.channels j).sent ++ sent_to (live s) j (x ∷ [])
      not_sent_to j = elim (Option-cases x.outcome_tx) [
        | inl no_tx ↦ ground (arith, append-nil (s.channels j).sent)
        | inr (c, p) ↦ ground (arith, append-nil (s.channels j).sent)
      ]

  with_sent-Drained :
      (x : Task I) (c : ℕ) (s : Shared I O E Q)
      → x.outcome_tx ≡ some c
      → live s c ≡ true
      → Drained s (x ∷ []) (with_sent c (unprocessed_of x) s)
  unfolding with_sent sent_on
  with_sent-Drained x c s e l = record {
    same_live = λ j i. live-with_sent c (unprocessed_of x) s i j;
    sent = λ j. ground (arith, append-nil (s.channels j).sent, ==_iff c j);
    stored = λ j. ground arith;
  }

  send_or_store_task-cases :
      (x : Task I) (s : Shared I O E Q)
      → ((c : ℕ) × (x.outcome_tx ≡ some c)
          × (live s c ≡ true)
          × (send_or_store_task x s ≡ done tt (with_sent c (unprocessed_of x) s)))
        ⊎ ((is_sent (live s) x ≡ false)
            × (send_or_store_task x s ≡ done tt (with_stored (unprocessed_of x) s)))
  unfolding send_or_store_task into_unprocessed_try_send into_unprocessed deliver try_send_msg
      add_outcome with_sent with_stored
  send_or_store_task-cases x s = elim (Option-cases x.outcome_tx) [
    | inl no_tx ↦ inr (rw no_tx refl, ground arith)
    | inr (c, e) ↦ elim (Bool-cases (live s c)) [
      | inl l ↦ inl (c, e, l, ground arith)
      | inr l ↦ inr (rw (e, l) refl, ground arith)
    ]
  ]

  -- One task after another.
  pub Drained-trans :
      {s t u : Shared I O E Q} {xs ys : List (Task I)}
      → Drained s xs t
      → Drained t ys u
      → Drained s (xs ++ ys) u
  Drained-trans {s} {t} {u} {xs} {ys} d e = record {
    same_live = e.same_live ∙ d.same_live;
    sent = λ c. ground (
      arith,
      e.sent c,
      d.sent c,
      d.same_live,
      sent_to-append {O = O} {E = E} (live s) c xs ys,
      append_assoc (s.channels c).sent (sent_to (live s) c xs) (sent_to (live s) c ys),
    );
    stored = λ i. ground (
      arith,
      e.stored i,
      d.stored i,
      d.same_live,
      stored_at-append (live s) i xs ys (get i s.outcomes),
    );
  }

  pub send_or_store_task-Drained :
      (x : Task I) (s : Shared I O E Q)
      → (t : Shared I O E Q) × (send_or_store_task x s ≡ done tt t)
        × Drained s (x ∷ []) t
        × SameQueues s t
  unfolding with_sent with_stored
  send_or_store_task-Drained x s = elim (send_or_store_task-cases x s) [
    | inl (c, tx, l, e) ↦
        (with_sent c (unprocessed_of x) s, e, with_sent-Drained x c s tx l, (refl, refl, refl))
    | inr (l, e) ↦
        (with_stored (unprocessed_of x) s, e, with_stored-Drained x s l, (refl, refl, refl))
  ]

  pub send_or_store-Drained :
      (xs : List (Task I)) (s : Shared I O E Q)
      → (t : Shared I O E Q) × (send_or_store xs s ≡ done tt t) × Drained s xs t × SameQueues s t
  unfolding send_or_store
  send_or_store-Drained [] s = (
    s,
    refl,
    record {
      same_live = refl;
      sent = λ c. sym (append-nil (s.channels c).sent);
      stored = λ i. refl;
    },
    (refl, refl, refl),
  )
  send_or_store-Drained (x ∷ xs) s =
      let (t, e, d, (rx, rq, n)) = send_or_store_task-Drained x s in
      let (u, f, d', (rx', rq', n')) = send_or_store-Drained xs t in
      (u, ground (arith, e, f), Drained-trans d d', (rx' ∙ rx, rq' ∙ rq, n' ∙ n))
