-- ===== src/Husk.antt =====
-- src/hive/husk.rs: what can be done with a `Husk`. Which threads the system starts is an argument.
pub mod Laws
pub mod Store
use procpool.Common.{
  ℕ, List, [], ◌∷◌, length, Option, none, some, Bool, Result, ok, err, Exec, done, panicked, ◌>>=◌,
  pure,
}
use procpool.Builder.{Builder}
use procpool.Config.{Config}
use procpool.Hive
use procpool.Hive.{SpawnError}
use procpool.Hive.Submit.{send_batch, swarm_send, swarm_store}
use procpool.Outcome.{Outcome, unprocessed}
use procpool.Outcome.Store.{Outcomes, unprocessed_input}
use procpool.Common.Maps.{values}
use procpool.Shared.{Channel, Shared, Call}
use procpool.Shared.Teardown.{Husk}

-- `Builder::build`: the hive, or the error of the first thread that was not started.
unfoldable pub build {ℓ} :
    {I O E Q : Type ℓ}
    → (ℕ → Bool)
    → Builder
    → Q
    → (ℕ → Channel I O E)
    → Result (Shared I O E Q) SpawnError
unfolding Hive.new
build spawn_ok b queen channels =
    let (error, s) = Hive.new spawn_ok b queen channels in
    elim error [ none ↦ ok s | some e ↦ err e ]

module _ {ℓ} {I O E : Type ℓ} where
  -- `filter_map` over the values
  unfoldable pub unprocessed_inputs : List (Outcome I O E) → List I
  unfolding unprocessed_input
  unprocessed_inputs [] = []
  unprocessed_inputs (o ∷ os) = elim (unprocessed_input o) [
    | none ↦ unprocessed_inputs os
    | some input ↦ input ∷ unprocessed_inputs os
  ]

  unfoldable pub collect_unprocessed : Outcomes I O E → List I
  unfolding unprocessed_inputs
  collect_unprocessed m = unprocessed_inputs (values m)

module _ {ℓ} {I O E Q : Type ℓ} where
  unfoldable pub into_parts : Husk I O E Q → Q × Outcomes I O E
  into_parts h = (h.queen, h.outcomes)

  unfoldable pub as_builder : Husk I O E Q → Builder
  as_builder h = h.config

  unfoldable pub into_hive :
      (ℕ → Bool) → (ℕ → Channel I O E) → Husk I O E Q → Result (Shared I O E Q) SpawnError
  unfolding build as_builder
  into_hive spawn_ok channels h = build spawn_ok (as_builder h) h.queen channels

  -- `into_hive_swarm_unprocessed_to` and `into_hive_swarm_unprocessed_store`: the call is made on the
  -- new hive; where it cannot be made, `unwrap` panics, and no hive is left.
  unfoldable pub swarm_unprocessed :
      (ℕ → Bool)
      → (ℕ → Channel I O E)
      → Option ℕ
      → Husk I O E Q
      → Result (Exec (Shared I O E Q) (List ℕ)) SpawnError
  unfolding into_hive collect_unprocessed send_batch
  swarm_unprocessed spawn_ok channels tx h = elim (into_hive spawn_ok channels h) [
    | err e ↦ err e
    | ok s ↦
        let inputs = collect_unprocessed h.outcomes in ok (send_batch (length inputs) inputs tx s)
  ]
