-- ===== src/DeviceState/Unprepare.antt =====
-- `Unprepare` of internal/devicestate/state.go.
pub mod Steps
pub mod Queues
pub mod Returned
pub mod Guest
pub mod Matrix
use k8s_cex_dra_driver.Prelude.{Text, List, [], ◌∷◌, Bool, true, ◌||◌, if◌then◌else◌}
use k8s_cex_dra_driver.Prelude.Exec.{Result, ok, err, Exec, wrap, ◌>>◌}
use k8s_cex_dra_driver.Os.{Os}
use k8s_cex_dra_driver.Mdev
use k8s_cex_dra_driver.Mdev.{Apqn, MatrixError, MdevError, exists, read_matrix}
use k8s_cex_dra_driver.Binding.Recovery.{drain_orphaned_vfio_ap}
use k8s_cex_dra_driver.Metadata.{claim_metadata_exists, delete_claim_metadata}
use k8s_cex_dra_driver.Cdi.{CdiError, delete_claim_spec}
use k8s_cex_dra_driver.DeviceState.{DeviceState}
use k8s_cex_dra_driver.DeviceState.Env.{Env}
use k8s_cex_dra_driver.DeviceState.Build.{rollback}

pub data UnprepareError : Type 0 where
  lock_wait : UnprepareError
  delete_spec : CdiError → UnprepareError
  destroy_mdev : MdevError → UnprepareError

module _ (os : Os) (env : Env os) (s : DeviceState) (claim_uid : Text) where
  open os use {World}

  -- `mdev.Exists(claimUID) || metadata.ClaimMetadataExists(…)`, the second only if the first fails.
  unfoldable pub was_vm : World → Bool × World
  was_vm w =
      let (found, w') = exists os claim_uid w in
      if found then (true, w') else claim_metadata_exists os s.plugin_data_dir claim_uid w'

  abbrev rows_or_none : Result MatrixError (List Apqn) → List Apqn
  rows_or_none (ok rows) = rows
  rows_or_none (err e) = []

  -- The matrix of the claim's mdev; an unreadable one is logged, and none has no rows.
  unfoldable pub claimed_apqns : World → List Apqn × World
  claimed_apqns w =
      let (found, w') = exists os claim_uid w in
      if found
      then (let (r, w'') = read_matrix os claim_uid w' in (rows_or_none r, w''))
      else ([], w')

  -- The queues go back to zcrypt, best-effort. With no rows to go by, a VM claim falls back to the
  -- drain, whose error is logged.
  unfoldable pub return_queues : Bool → List Apqn → World → World
  return_queues vm [] w = if vm then (drain_orphaned_vfio_ap os env.verbose w).1 else w
  return_queues vm (q ∷ queues) w = rollback os env (q ∷ queues) w

  unfoldable pub unprepare_locked : Exec World UnprepareError (Unit {0})
  unfolding was_vm claimed_apqns return_queues
  unprepare_locked w =
      let (vm, w1) = was_vm w in
      let tear_down : Exec World UnprepareError (Unit {0}) = do
        wrap delete_spec (delete_claim_spec os s.cdi_root claim_uid)
        λ w2.
            let w3 = (delete_claim_metadata os s.plugin_data_dir claim_uid w2).1 in
            let (apqns, w4) = claimed_apqns w3 in
            let finish : Exec World UnprepareError (Unit {0}) = do
              wrap destroy_mdev (Mdev.destroy os claim_uid)
              λ w5. (ok tt, return_queues vm apqns w5)
            in finish w4
      in tear_down w1

  unfoldable pub unprepare : Exec World UnprepareError (Unit {0})
  unfolding unprepare_locked
  unprepare w = if env.ended w || env.gave_up w then (err lock_wait, w) else unprepare_locked w
