-- ===== src/Pool/Mapped/Arrived.antt =====
-- src/hive/hive.rs, `map_unordered`: what a channel has received when the tasks are done, in no order.
use mathlib.Core.List.{Perm, perm_middle}
use mathlib.Core.List.Perm
use procpool.Pool.Frames.{Final}
use procpool.Common.{
  ◌⊎◌, ℕ, ◌^◌, ◌<◌, ◌≤◌, ◌≡◌, refl, sym, ap, ◌∙◌, subst, List, [], ◌∷◌, ◌++◌, map, length, range,
  true, false, ◌==◌, arith, All, get_elem?, Bool-cases, inl, inr, ==_iff,
}
use procpool.Bee.{Context, Unwind, returned, WorkerResult}
use procpool.Config.{Config}
use procpool.Hive.{join_waits}
use procpool.Outcome.{Outcome, index}
use procpool.Pool.{System, init}
use procpool.Pool.Conservation.{occurs-middle}
use procpool.Pool.Issued.{below, occurs-range}
use procpool.Pool.Mapped.{MapRun}
use procpool.Pool.Mapped.Results.{
  IsAnswer, outcome_at, outcomes_from, outcome_at-some, map-outcome_at, each_sent,
}
use procpool.Pool.Mapped.Runs.{MapRun-Mapped}
use procpool.Pool.Mapped.Tries.{allowed, last_result}
use procpool.Pool.Occurs.{occurs}
use procpool.Shared.{Channel}

occurs-split :
    (k : ℕ) (xs : List ℕ)
    → 0 < occurs k xs
    → (pre : List ℕ) × (post : List ℕ) × (xs ≡ pre ++ k ∷ post)
occurs-split k [] h = absurd (omega arith)
occurs-split k (x ∷ xs) h = elim (Bool-cases (x == k)) [
  | inl here ↦ ([], xs, ap (λ i. i ∷ xs) ((==_iff x k).0 here))
  | inr elsewhere ↦
      let (pre, post, e) = occurs-split k xs (ground arith) in (x ∷ pre, post, ap (λ is. x ∷ is) e)
]

-- Lists in which every number occurs as often are permutations of each other.
occurs-Perm : (xs ys : List ℕ) → ((k : ℕ) → occurs k xs ≡ occurs k ys) → Perm xs ys
occurs-Perm [] [] h = Perm.rfl
occurs-Perm [] (y ∷ ys) h = absurd (ground (arith, h y, ==_iff y y))
occurs-Perm (x ∷ xs) ys h =
    let (pre, post, e) = occurs-split x ys (ground (arith, h x, ==_iff x x)) in
    subst (Perm (x ∷ xs)) (sym e) (
      Perm.trans
        (Perm.cons x
          (occurs-Perm xs (pre ++ post) (λ k. omega (arith, h k, occurs-middle k ys pre post x e))))
        (Perm.symm (perm_middle pre post)))

module _ {ℓ} {I O E : Type ℓ} (work : I → WorkerResult I O E) where
  -- Outcomes that each are the one for their index.
  map-answers :
      (inputs : List I) (os : List (Outcome I O E))
      → All (IsAnswer work inputs) os
      → os ≡ map (outcome_at work inputs) (map index os)
  map-answers inputs [] h = refl
  map-answers inputs (o ∷ os) ((v, submitted, answer), h) =
      let here : o ≡ outcome_at work inputs (index o) =
        answer ∙ sym (outcome_at-some work inputs (index o) v submitted) in
      let rest = map-answers inputs os h in cc

  answers-Perm :
      (inputs : List I) (os : List (Outcome I O E))
      → All (IsAnswer work inputs) os
      → ((k : ℕ) → occurs k (map index os) ≡ below k (length inputs))
      → Perm os (outcomes_from work 0 inputs)
  answers-Perm inputs os h each =
      let n = length inputs in
      let same : Perm (map index os) (range 0 n) =
        occurs-Perm (map index os) (range 0 n) (λ k. ground (arith, each k, occurs-range k 0 n)) in
      subst (λ xs. Perm xs (outcomes_from work 0 inputs)) (sym (map-answers inputs os h))
        (subst (Perm (map (outcome_at work inputs) (map index os)))
          (map-outcome_at work inputs 0 inputs (λ i. ap (get_elem? inputs) (omega arith)))
          (Perm.map (outcome_at work inputs) same))

module _ {ℓ} {I O E Q : Type ℓ} (work : I → ℕ → WorkerResult I O E)
    (Does : I → Context → Unwind (WorkerResult I O E) → Type ℓ)
    (steady : (v : I) (ctx : Context) (call : Unwind (WorkerResult I O E))
      → Does v ctx call
      → call ≡ returned (work v ctx.attempt))
    (limit c threads : ℕ) (calm : (v : I) (a : ℕ) → Final (work v a) ⊎ (limit ≤ 64))
    (small : threads < 2 ^ 16) (config : Config) (limited : allowed config ≡ limit) (queen : Q)
    (channels : ℕ → Channel I O E) (live : (channels c).connected ≡ true)
    (fresh : (channels c).sent ≡ []) (inputs : List I) (s : System I O E Q)
    (run : MapRun Does c threads (init config queen channels) inputs s)
    (fits : length inputs ≤ 2 ^ 64) (awake : s.shared.suspended ≡ false)
    (idle : join_waits s.shared ≡ false) where
  -- When the tasks are done, the channel has received the outcome of the last result of every input,
  -- each once, in some order.
  pub sent-Perm :
      Perm (s.shared.channels c).sent (outcomes_from (λ v. last_result work limit v 0) 0 inputs)
  sent-Perm =
      let m =
        MapRun-Mapped work limit c Does steady calm config queen channels live fresh limited run
          fits in
      answers-Perm (λ v. last_result work limit v 0) inputs (s.shared.channels c).sent m.answered
        (each_sent work Does steady limit c threads calm small config limited queen channels live
          fresh inputs s run fits awake idle)
