-- ===== src/Hive/Blocking/Laws.antt =====
-- src/hive/hive.rs: what `map_unordered` and `scan` return when the tasks of their hive are done.
use mathlib.Core.List.{Perm}
use mathlib.Core.Option
use procpool.Common.{
  ℕ, zero, suc, ◌^◌, ◌<◌, ◌≤◌, ◌≡◌, refl, ap, List, [], ◌∷◌, length, length-range, none, some, true,
  false, take_whole, done, arith, get_elem?, inl, inr, ◌⊎◌,
}
use procpool.Bee.{Context, Unwind, returned, WorkerResult}
use procpool.Common.Maps.{get, insert, get-insert}
use procpool.Config.{Config}
use procpool.Counter
use procpool.Hive.{join_waits}
use procpool.Hive.Blocking.{scan, map_unordered}
use procpool.Hive.Submit.{map_send}
use procpool.Hive.Submit.Batch.{batch_tasks, submitted}
use procpool.Hive.Submit.Each.{Accepts, scanned, last_state, send_each, scan_into-scanned}
use procpool.Outcome.{Outcome, from_worker_result, index}
use procpool.Outcome.Batch.{batch_from, collect_into}
use procpool.Outcome.Iter.Serve.{find, Distinct}
use procpool.Outcome.Store.{Outcomes}
use procpool.Pool.{System, init}
use procpool.Pool.Mapped.{MapRun}
use procpool.Pool.Mapped.Arrived.{sent-Perm}
use procpool.Pool.Mapped.Results.{
  outcomes_from, each_sent, length-sent, find-absent, find-IsAnswer, Distinct-once,
}
use procpool.Pool.Mapped.Runs.{MapRun-Mapped}
use procpool.Pool.Mapped.Tries.{allowed, last_result}
use procpool.Shared
use procpool.Shared.{Channel, Shared}

module _ {ℓ} {I O E : Type ℓ} where
  -- A batch of outcomes with different indices has each of them under its index.
  get-collect_into :
      (k : ℕ) (os : List (Outcome I O E)) (m : Outcomes I O E)
      → Distinct os
      → get k (collect_into m os) ≡ elim (find k os) [ none ↦ get k m | some o ↦ some o ]
  unfolding collect_into find
  get-collect_into k [] m d = refl
  get-collect_into k (o ∷ os) m d =
      ground (arith, get-collect_into k os (insert (index o) o m) d.1, get-insert (index o) k o m)

get_elem?-cases {ℓ} :
    {A : Type ℓ} (xs : List A) (k : ℕ)
    → ((a : A) × (get_elem? xs k ≡ some a) × (k < length xs))
      ⊎ ((get_elem? xs k ≡ none) × (length xs ≤ k))
get_elem?-cases [] k = inr (refl, omega arith)
get_elem?-cases (x ∷ xs) zero = inl (x, refl, omega arith)
get_elem?-cases (x ∷ xs) (suc k) = elim (get_elem?-cases xs k) [
  | inl (a, e, h) ↦ inl (a, e, omega arith)
  | inr (e, h) ↦ inr (e, omega arith)
]

module _ {ℓ κ} {I : Type ℓ} {St T : Type κ} (f : St → T → St × I) where
  length-scanned : (items : List T) (acc : St) → length (scanned f items acc) ≡ length items
  length-scanned [] acc = refl
  length-scanned (item ∷ items) acc = ap suc (length-scanned items (f acc item).0)

module _ {ℓ} {I O E Q : Type ℓ} (config : Config) (queen : Q) (channels : ℕ → Channel I O E) where
  -- The new hive once it was given the inputs for this channel.
  abbrev pub given : ℕ → List I → Shared I O E Q
  given tx inputs =
      let n = length inputs in
      submitted (Shared.new config queen channels) 0 0 n n (batch_tasks (some tx) 0 inputs)

  new-Accepts : (n : ℕ) → n < 2 ^ 48 → Accepts n 0 0 (Shared.new config queen channels)
  unfolding Shared.new Counter.default
  new-Accepts n few = record {
    counts = record { word = refl; queued_fits = omega arith; active_fits = omega arith };
    alive = refl;
    fits = omega arith;
    wide = omega arith;
  }

-- The outcomes of the inputs, in their order: each of the last result of its input.
abbrev pub expected {ℓ} :
    {I O E : Type ℓ} → (I → ℕ → WorkerResult I O E) → Config → List I → List (Outcome I O E)
expected work config inputs = outcomes_from (λ v. last_result work (allowed config) v 0) 0 inputs

module _ {ℓ} {I O E Q : Type ℓ} (work : I → ℕ → WorkerResult I O E)
    (Does : I → Context → Unwind (WorkerResult I O E) → Type ℓ)
    (steady : (v : I) (ctx : Context) (call : Unwind (WorkerResult I O E))
      → Does v ctx call
      → call ≡ returned (work v ctx.attempt))
    (c threads : ℕ) (small : threads < 2 ^ 16) (config : Config) (few_tries : allowed config ≤ 64)
    (queen : Q) (channels : ℕ → Channel I O E) (live : (channels c).connected ≡ true)
    (fresh : (channels c).sent ≡ []) where
  module _ (inputs : List I) (few : length inputs < 2 ^ 48) (s : System I O E Q)
      (run : MapRun Does c threads (init config queen channels) inputs s)
      (awake : s.shared.suspended ≡ false) (idle : join_waits s.shared ≡ false) where
    -- Where what a worker returns depends on the input and the attempt alone, `map_unordered` on a new
    -- hive yields the outcomes of the inputs, each once and under the index of its input, in some
    -- order, however the threads of the hive interleave: in every state that they reach after the
    -- inputs were submitted, and in which `join` would not wait, its channel has received what makes
    -- it yield them. The outcome of an input is that of its last attempt, which succeeds, fails with
    -- an error that is not tried again, or is at the limit of retries, which is at most 64. The
    -- hive is not suspended in that state. There are less than 2^16 threads and less than 2^48 inputs.
    pub map_unordered-Perm :
        (os : List (Outcome I O E)) × (map_unordered c
            (λ t. (s.shared.channels c).sent)
            inputs
            (Shared.new config queen channels)
          ≡ done os (given config queen channels c inputs))
        × Perm os (expected work config inputs)
    unfolding map_unordered map_send Shared.new
    map_unordered-Perm =
        let os = (s.shared.channels c).sent in
        let n = length inputs in
        let many : length os ≡ n =
          length-sent work Does steady (allowed config) c threads (λ v a. inr few_tries) small
            config refl queen channels live fresh inputs s run (omega arith) awake idle in
        let sends =
          send_each inputs (some c) 0 0 (Shared.new config queen channels)
            (new-Accepts config queen channels n few) in
        (
          os,
          ground (arith, sends, length-range 0 n, take_whole os n (omega arith)),
          sent-Perm work Does steady (allowed config) c threads (λ v a. inr few_tries) small config
              refl queen channels live fresh inputs s run (omega arith) awake idle,
        )

    -- The batch of what the channel has received.
    get-sent :
        (k : ℕ)
        → get k (batch_from (s.shared.channels c).sent)
          ≡ Option.map
              (λ v. from_worker_result (last_result work (allowed config) v 0) k)
              (get_elem? inputs k)
    unfolding batch_from get
    get-sent k =
        let os = (s.shared.channels c).sent in
        let results : I → WorkerResult I O E = λ v. last_result work (allowed config) v 0 in
        let each =
          each_sent work Does steady (allowed config) c threads (λ v a. inr few_tries) small config
            refl queen channels live fresh inputs s run (omega arith) awake idle in
        let m =
          MapRun-Mapped work (allowed config) c Does steady (λ v a. inr few_tries) config queen
            channels live fresh refl run (omega arith) in
        let batch = get-collect_into k os [] (Distinct-once os (λ j. ground (arith, each j))) in
        elim (get_elem?-cases inputs k) [
          | inl (v, e, h) ↦ ground (
            arith,
            batch,
            e,
            find-IsAnswer results inputs k os m.answered (ground (arith, each k)),
          )
          | inr (e, h) ↦ ground (arith, batch, e, find-absent k os (ground (arith, each k)))
        ]

  module _ {κ} {St T : Type κ} (f : St → T → St × I) (items : List T) (first_state : St)
      (few : length items < 2 ^ 48) (s : System I O E Q)
      (run : MapRun Does c threads (init config queen channels) (scanned f items first_state) s)
      (awake : s.shared.suspended ≡ false) (idle : join_waits s.shared ≡ false) where
    -- Where what a worker returns depends on the input and the attempt alone, `scan` on a new hive
    -- returns the closure's last state and a batch, however the threads of the hive interleave: in every
    -- state that they reach after the inputs that the closure makes of the items were submitted, and in
    -- which `join` would not wait. Under each index the batch has the outcome of the last attempt of the
    -- input at that place, and it has nothing else. The hive is not suspended in that state,
    -- and its limit of retries is at most 64. There are less than 2^16 threads and less than 2^48
    -- items.
    pub scan-all :
        (batch : Outcomes I O E) × (scan c
            (λ t. (s.shared.channels c).sent)
            items
            first_state
            f
            (Shared.new config queen channels)
          ≡ done
              (batch, last_state f items first_state)
              (given config queen channels c (scanned f items first_state)))
        × ((k : ℕ)
            → get k batch
              ≡ Option.map
                  (λ v. from_worker_result (last_result work (allowed config) v 0) k)
                  (get_elem? (scanned f items first_state) k))
    unfolding scan Shared.new
    scan-all =
        let inputs = scanned f items first_state in
        let os = (s.shared.channels c).sent in
        let same : length inputs ≡ length items = length-scanned f items first_state in
        let n = length items in
        let many : length os ≡ length inputs =
          length-sent work Does steady (allowed config) c threads (λ v a. inr few_tries) small
            config refl queen channels live fresh inputs s run (omega arith) awake idle in
        let sends =
          scan_into-scanned f items (some c) first_state 0 0 (Shared.new config queen channels)
            (new-Accepts config queen channels n few) in
        (
          batch_from os,
          ground (arith, sends, same, length-range 0 n, take_whole os n (omega arith)),
          get-sent inputs (omega arith) s run awake idle,
        )
