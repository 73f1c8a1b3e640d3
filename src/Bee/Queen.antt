-- ===== src/Bee/Queen.antt =====
-- src/bee/queen.rs: the queens that make workers by `Default` and by `Clone`. What these make is an
-- argument.
unfoldable pub create_default {ℓ κ} : {Q : Type ℓ} {W : Type κ} → W → Q → Q × W
create_default default_worker q = (q, default_worker)

pub record CloneQueen {ℓ} (W : Type ℓ) : Type ℓ where
  pub worker : W

module _ {ℓ} {W : Type ℓ} where
  unfoldable pub clone_queen : W → CloneQueen W
  clone_queen worker = record { worker = worker }

  unfoldable pub create_clone : (W → W) → CloneQueen W → CloneQueen W × W
  create_clone clone_worker q = (q, clone_worker q.worker)
