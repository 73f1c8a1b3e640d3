-- ===== src/Pool/Mapped/Results.antt =====
-- src/hive/hive.rs, `map`, and src/hive/outcome/iter.rs: what the client reads when its tasks are done.
use procpool.Common.{
  ℕ, zero, suc, ◌+◌, ◌^◌, ◌<◌, ◌≤◌, ◌≡◌, refl, sym, ap, ◌∙◌, List, [], ◌∷◌, map, length, range,
  length-range, none, some, true, false, ◌==◌, contains, ◌⊎◌, arith, All, get_elem?, Bool-cases,
  inl, inr, ==_iff,
}
use procpool.Bee.{Context, Unwind, returned, WorkerResult}
use procpool.Config.{Config}
use procpool.Hive.{join_waits}
use procpool.Outcome.{Outcome, from_worker_result, index, missing}
use procpool.Outcome.Iter.{new, read_items}
use procpool.Outcome.Iter.Ordered.{read_items-new}
use procpool.Outcome.Iter.Serve.{Nodup, Distinct, find}
use procpool.Pool.{System, init}
use procpool.Pool.Conservation.{join-delivered}
use procpool.Pool.Frames.{Final}
use procpool.Pool.Issued.{below}
use procpool.Pool.Join.{join_waits-Reach}
use procpool.Pool.Mapped.{MapRun, MapRun-Reach}
use procpool.Pool.Mapped.Invariant.{sent}
use procpool.Pool.Mapped.Tries.{allowed, last_result}
use procpool.Pool.Mapped.Runs.{MapRun-Mapped}
use procpool.Pool.Occurs.{occurs}
use procpool.Pool.Once.{Reach-Issued}
use procpool.Shared.{Channel}

contains-range : (k first n : ℕ) → k < first → contains (range first n) k ≡ false
unfolding contains
contains-range k first zero h = refl
contains-range k first (suc n) h = ground (arith, contains-range k (suc first) n (omega arith))

Nodup-range : (first n : ℕ) → Nodup (range first n)
Nodup-range first zero = tt
Nodup-range first (suc n) =
    (contains-range first (suc first) n (omega arith), Nodup-range (suc first) n)

module _ {ℓ} {I O E : Type ℓ} where
  pub find-absent :
      (k : ℕ) (os : List (Outcome I O E)) → occurs k (map index os) ≡ 0 → find k os ≡ none
  unfolding find
  find-absent k [] h = refl
  find-absent k (o ∷ os) h = ground (arith, find-absent k os)

  pub Distinct-once :
      (os : List (Outcome I O E)) → ((k : ℕ) → occurs k (map index os) ≤ 1) → Distinct os
  Distinct-once [] h = tt
  Distinct-once (o ∷ os) h = (
    find-absent (index o) os (ground (arith, h (index o), ==_iff (index o) (index o))),
    Distinct-once os (λ k. ground (arith, h k)),
  )

module _ {ℓ} {I O E : Type ℓ} (work : I → WorkerResult I O E) where
  -- The outcome of the input under its index.
  abbrev pub IsAnswer : List I → Outcome I O E → Type ℓ
  IsAnswer inputs o =
      (v : I) × (get_elem? inputs (index o) ≡ some v) × (o ≡ from_worker_result (work v) (index o))

  -- The outcome of the input under an index.
  abbrev pub outcome_at : List I → ℕ → Outcome I O E
  outcome_at inputs i = elim (get_elem? inputs i) [
    | none ↦ missing i
    | some v ↦ from_worker_result (work v) i
  ]

  -- The outcomes of the inputs, in their order.
  abbrev pub outcomes_from : ℕ → List I → List (Outcome I O E)
  outcomes_from first [] = []
  outcomes_from first (v ∷ vs) = from_worker_result (work v) first ∷ outcomes_from (suc first) vs

  pub outcome_at-some :
      (inputs : List I) (i : ℕ) (v : I)
      → get_elem? inputs i ≡ some v
      → outcome_at inputs i ≡ from_worker_result (work v) i
  outcome_at-some inputs i v e = rw (e, outcome_at) refl

  pub map-outcome_at :
      (inputs : List I) (first : ℕ) (vs : List I)
      → ((i : ℕ) → get_elem? inputs (first + i) ≡ get_elem? vs i)
      → map (outcome_at inputs) (range first (length vs)) ≡ outcomes_from first vs
  map-outcome_at inputs first [] h = refl
  map-outcome_at inputs first (v ∷ vs) h =
      let here : outcome_at inputs first ≡ from_worker_result (work v) first =
        outcome_at-some inputs first v (ap (get_elem? inputs) (omega arith) ∙ h 0) in
      let rest : map (outcome_at inputs) (range (suc first) (length vs))
          ≡ outcomes_from (suc first) vs =
        map-outcome_at inputs (suc first) vs
          (λ i. ap (get_elem? inputs) (omega arith) ∙ h (suc i)) in
      cc

  pub find-IsAnswer :
      (inputs : List I) (k : ℕ) (os : List (Outcome I O E))
      → All (IsAnswer inputs) os
      → 0 < occurs k (map index os)
      → find k os ≡ some (outcome_at inputs k)
  unfolding find
  find-IsAnswer inputs k [] h found = absurd (omega arith)
  find-IsAnswer inputs k (o ∷ os) h found = elim (Bool-cases (index o == k)) [
    | inl here ↦
        let (v, submitted, answer) = h.0 in
        let at : index o ≡ k = (==_iff (index o) k).0 here in
        rw here (
          ap some (
            answer
            ∙ sym (outcome_at-some inputs (index o) v submitted)
            ∙ ap (outcome_at inputs) at))
    | inr elsewhere ↦ rw elsewhere (find-IsAnswer inputs k os h.1 (ground arith))
  ]

  All-found :
      (inputs : List I) (os : List (Outcome I O E))
      → All (IsAnswer inputs) os
      → (first n : ℕ) → ((k : ℕ) → first ≤ k → k < first + n → 0 < occurs k (map index os))
      → All (λ i. find i os ≡ some (outcome_at inputs i)) (range first n)
  All-found inputs os h first zero found = tt
  All-found inputs os h first (suc n) found = (
    find-IsAnswer inputs first os h (found first (omega arith) (omega arith)),
    All-found inputs os h (suc first) n (λ k low high. found k (omega arith) (omega arith)),
  )

pub outcomes_from-ext {ℓ} :
    {I O E : Type ℓ} (f g : I → WorkerResult I O E)
    → ((v : I) → f v ≡ g v)
    → (first : ℕ) (vs : List I) → outcomes_from f first vs ≡ outcomes_from g first vs
outcomes_from-ext f g same first [] = refl
outcomes_from-ext f g same first (v ∷ vs) =
    let here = same v in let rest = outcomes_from-ext f g same (suc first) vs in cc

module _ {ℓ} {I O E Q : Type ℓ} (work : I → ℕ → WorkerResult I O E)
    (Does : I → Context → Unwind (WorkerResult I O E) → Type ℓ)
    (steady : (v : I) (ctx : Context) (call : Unwind (WorkerResult I O E))
      → Does v ctx call
      → call ≡ returned (work v ctx.attempt))
    (limit c threads : ℕ) (calm : (v : I) (a : ℕ) → Final (work v a) ⊎ (limit ≤ 64))
    (small : threads < 2 ^ 16) (config : Config) (limited : allowed config ≡ limit) (queen : Q)
    (channels : ℕ → Channel I O E) (live : (channels c).connected ≡ true)
    (fresh : (channels c).sent ≡ []) (inputs : List I) (s : System I O E Q)
    (run : MapRun Does c threads (init config queen channels) inputs s)
    (fits : length inputs ≤ 2 ^ 64) (awake : s.shared.suspended ≡ false)
    (idle : join_waits s.shared ≡ false) where
  pub each_sent : (k : ℕ) → occurs k (map index (sent work limit c s)) ≡ below k (length inputs)
  each_sent k =
      let m =
        MapRun-Mapped work limit c Does steady calm config queen channels live fresh limited run
          fits in
      let r = MapRun-Reach Does c threads run in
      let issued = Reach-Issued config queen channels s r in
      omega (
        arith,
        m.counted k,
        issued.each_once k (omega (arith, m.created)),
        ap (below k) m.created,
        join-delivered small config queen channels s r k awake idle,
        ap (occurs k) m.none_lost,
      )

  pub length-sent : length (sent work limit c s) ≡ length inputs
  length-sent =
      let m =
        MapRun-Mapped work limit c Does steady calm config queen channels live fresh limited run
          fits in
      let (none_active, or_asleep) =
        (join_waits-Reach small config queen channels s (MapRun-Reach Does c threads run)).0 idle in
      elim or_asleep [ inl asleep ↦ absurd (cc) | inr empty ↦ omega (arith, m.total) ]

  -- When the tasks are done, the iterator yields the outcome of the last result of every input, in the
  -- order of the inputs.
  pub map-outcomes :
      (most : ℕ)
      → length inputs ≤ most
      → read_items most (new (sent work limit c s) (range 0 (length inputs)))
        ≡ some (outcomes_from (λ v. last_result work limit v 0) 0 inputs)
  map-outcomes most enough =
      let m =
        MapRun-Mapped work limit c Does steady calm config queen channels live fresh limited run
          fits in
      let n = length inputs in
      let results : I → WorkerResult I O E = λ v. last_result work limit v 0 in
      read_items-new (outcome_at results inputs) most (range 0 n) (sent work limit c s)
        (omega (arith, length-range 0 n)) (Nodup-range 0 n)
        (Distinct-once (sent work limit c s) (λ k. ground (arith, each_sent k)))
        (omega (arith, length-range 0 n, length-sent))
        (All-found results inputs (sent work limit c s) m.answered 0 n
          (λ k low high. ground (arith, each_sent k)))
      ∙ ap some (map-outcome_at results inputs 0 inputs (λ i. ap (get_elem? inputs) (omega arith)))
