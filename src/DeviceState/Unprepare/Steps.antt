-- ===== src/DeviceState/Unprepare/Steps.antt =====
-- The ways through `Unprepare`.
use k8s_cex_dra_driver.Prelude.{Text, List, true, false, ◌||◌, ◌≡◌, ◌⊎◌, inl, inr, refl, arith}
use k8s_cex_dra_driver.Prelude.Exec.{Result, ok, err}
use k8s_cex_dra_driver.Os.{Os}
use k8s_cex_dra_driver.Mdev
use k8s_cex_dra_driver.Mdev.{Apqn, MdevError}
use k8s_cex_dra_driver.Metadata.{delete_claim_metadata}
use k8s_cex_dra_driver.Cdi.{CdiError, delete_claim_spec}
use k8s_cex_dra_driver.DeviceState.{DeviceState}
use k8s_cex_dra_driver.DeviceState.Env.{Env}
use k8s_cex_dra_driver.DeviceState.Unprepare.{
  lock_wait, delete_spec, destroy_mdev, was_vm, claimed_apqns, return_queues, unprepare,
}

module _ (os : Os) (env : Env os) (s : DeviceState) (claim_uid : Text) (w : os.World) where
  -- The worlds of `Unprepare`: after the test for a VM claim, the two deletions, the read of the
  -- matrix, and the removal of the mdev.
  abbrev pub tested : os.World
  tested = (was_vm os env s claim_uid w).1

  abbrev pub spec_deleted : os.World
  spec_deleted = (delete_claim_spec os s.cdi_root claim_uid tested).1

  abbrev pub metadata_deleted : os.World
  metadata_deleted = (delete_claim_metadata os s.plugin_data_dir claim_uid spec_deleted).1

  abbrev pub rows : List Apqn
  rows = (claimed_apqns os env s claim_uid metadata_deleted).0

  abbrev pub rows_read : os.World
  rows_read = (claimed_apqns os env s claim_uid metadata_deleted).1

  abbrev pub destroyed : os.World
  destroyed = (Mdev.destroy os claim_uid rows_read).1

  abbrev pub Ways : Type 0
  Ways =
      ((e : CdiError) × (unprepare os env s claim_uid w ≡ (err (delete_spec e), spec_deleted)))
      ⊎ ((e : MdevError) × (unprepare os env s claim_uid w ≡ (err (destroy_mdev e), destroyed)))
      ⊎ (((Mdev.destroy os claim_uid rows_read).0 ≡ ok tt)
          × (unprepare os env s claim_uid w ≡ (
            ok tt,
            return_queues os env s claim_uid (was_vm os env s claim_uid w).0 rows destroyed,
          )))

  -- The three ways through `Unprepare` with the lock held.
  pub unprepare_cases : (env.ended w || env.gave_up w) ≡ false → Ways
  unfolding unprepare
  unprepare_cases locked =
      go (delete_claim_spec os s.cdi_root claim_uid tested).0 refl
        (Mdev.destroy os claim_uid rows_read).0 refl
    where
      go :
          (r : Result CdiError (Unit {0}))
          → (delete_claim_spec os s.cdi_root claim_uid tested).0 ≡ r
          → (d : Result MdevError (Unit {0})) → (Mdev.destroy os claim_uid rows_read).0 ≡ d
          → Ways
      go (err e) re d de = inl (e, ground arith)
      go (ok t) re (err e) de = inr (inl (e, ground arith))
      go (ok t) re (ok u) de = inr (inr (de, ground arith))

  pub unprepare_late :
      (env.ended w || env.gave_up w) ≡ true → unprepare os env s claim_uid w ≡ (err lock_wait, w)
  unfolding unprepare
  unprepare_late late = ground arith
