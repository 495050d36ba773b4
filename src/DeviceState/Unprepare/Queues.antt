-- ===== src/DeviceState/Unprepare/Queues.antt =====
-- Which queues `Unprepare` touches.
use k8s_cex_dra_driver.Prelude.{
  Text, List, [], ◌∷◌, Bool, false, ◌≡◌, ◌⊎◌, inl, inr, refl, arith, text_eq,
}
use k8s_cex_dra_driver.Os.{Os}
use k8s_cex_dra_driver.Mdev.{Apqn, exists}
use k8s_cex_dra_driver.Binding.Kernel.{Kernel, SameQueue}
use k8s_cex_dra_driver.Binding.Mdevs.{exists-Same, destroy-Same, read_matrix-Same}
use k8s_cex_dra_driver.Metadata.{claim_metadata_exists, delete_claim_metadata, claim_dir}
use k8s_cex_dra_driver.Cdi.{delete_claim_spec, spec_path}
use k8s_cex_dra_driver.DeviceState.{DeviceState}
use k8s_cex_dra_driver.DeviceState.Env.{Env}
use k8s_cex_dra_driver.DeviceState.Rollback.{Lacks, rollback_same}
use k8s_cex_dra_driver.DeviceState.Unprepare.Steps.{
  tested, spec_deleted, metadata_deleted, rows, rows_read, destroyed,
}
use k8s_cex_dra_driver.DeviceState.Unprepare.{was_vm, claimed_apqns, return_queues, unprepare}

module _ (os : Os) (k : Kernel os) (env : Env os) (s : DeviceState) (claim_uid id : Text) where
  open k use {stat_same, remove_same, remove_all_same}

  abbrev Same : os.World → os.World → Type 0
  Same = SameQueue os k id

  pub was_vm-Same : (w : os.World) → Same w (was_vm os env s claim_uid w).1
  unfolding was_vm claim_metadata_exists
  was_vm-Same w = ground (
    arith,
    exists-Same os k id claim_uid w,
    stat_same (claim_dir s.plugin_data_dir claim_uid) (exists os claim_uid w).1 id,
  )

  pub claimed_apqns-Same : (w : os.World) → Same w (claimed_apqns os env s claim_uid w).1
  unfolding claimed_apqns
  claimed_apqns-Same w = ground (
    arith,
    exists-Same os k id claim_uid w,
    read_matrix-Same os k id claim_uid (exists os claim_uid w).1,
  )

  pub delete_claim_spec-Same :
      (w : os.World) → Same w (delete_claim_spec os s.cdi_root claim_uid w).1
  unfolding delete_claim_spec
  delete_claim_spec-Same w = ground (arith, remove_same (spec_path s.cdi_root claim_uid) w id)

  pub delete_claim_metadata-Same :
      (w : os.World) → Same w (delete_claim_metadata os s.plugin_data_dir claim_uid w).1
  unfolding delete_claim_metadata
  delete_claim_metadata-Same w =
      ground (arith, remove_all_same (claim_dir s.plugin_data_dir claim_uid) w id)

  return_queues-Same :
      (vm : Bool) (rows : List Apqn) (w : os.World)
      → Lacks id rows
      → (vm ≡ false) ⊎ ((q : Apqn) × (qs : List Apqn) × (rows ≡ q ∷ qs))
      → Same w (return_queues os env s claim_uid vm rows w)
  unfolding return_queues
  return_queues-Same vm [] w h (inl container) = rw container (refl, refl)
  return_queues-Same vm [] w h (inr (q, qs, e)) = ground arith
  return_queues-Same vm (q ∷ qs) w h c = rollback_same os k env id (q ∷ qs) w h

  module _ (w : os.World) where
    -- `Unprepare`, whether it fails or not, leaves the override and the driver of every queue alone
    -- that is not in the mdev's matrix, if the matrix has a row or the claim is no VM claim: there is
    -- no drain of the whole bus then.
    pub unprepare_same :
        Lacks id (rows os env s claim_uid w)
        → ((was_vm os env s claim_uid w).0 ≡ false)
          ⊎ ((q : Apqn) × (qs : List Apqn) × ((rows os env s claim_uid w) ≡ q ∷ qs))
        → SameQueue os k id w (unprepare os env s claim_uid w).1
    unfolding unprepare
    unprepare_same lacking apart = ground (
      arith,
      was_vm-Same w,
      delete_claim_spec-Same (tested os env s claim_uid w),
      delete_claim_metadata-Same (spec_deleted os env s claim_uid w),
      claimed_apqns-Same (metadata_deleted os env s claim_uid w),
      destroy-Same os k id claim_uid (rows_read os env s claim_uid w),
      return_queues-Same (was_vm os env s claim_uid w).0 (rows os env s claim_uid w)
          (destroyed os env s claim_uid w) lacking apart,
    )
