-- ===== src/DeviceState/Ensure.antt =====
-- What `ensureMdevForClaim` does on its branches.
pub mod Outcome
pub mod Queues
use k8s_cex_dra_driver.Prelude.{Text, List, true, false, ◌≡◌, text_eq, arith}
use k8s_cex_dra_driver.Prelude.Exec.{ok, err}
use k8s_cex_dra_driver.Os.{Os}
use k8s_cex_dra_driver.Mdev.{
  Apqn, apqn_eq, MatrixError, MdevError, exists, read_matrix, create, destroy,
}
use k8s_cex_dra_driver.DeviceState.Env.{Env}
use k8s_cex_dra_driver.DeviceState.Allocation.{Collected, PrepareError, read_existing, assign}
use k8s_cex_dra_driver.DeviceState.Build.{
  matrix_equals, destroy_partial_mdev, switch_queues_to_vfio_ap, assign_mdev_matrix, make_mdev,
  build_mdev, ensure_mdev,
}

module _ (os : Os) (env : Env os) (claim_uid mode : Text) (c : Collected) (w w1 : os.World) where
  module _ (there : exists os claim_uid w ≡ (true, w1)) where
    -- A claim whose mdev is complete is prepared again by the two reads alone: no queue is switched, and
    -- nothing is written.
    pub ensure_mdev_complete :
        {rows : List Apqn} {w2 : os.World}
        → read_matrix os claim_uid w1 ≡ (ok rows, w2)
        → matrix_equals rows c.allocated ≡ true
        → ensure_mdev os env claim_uid mode c w ≡ (ok tt, w2)
    unfolding ensure_mdev
    ensure_mdev_complete read complete = ground arith

    -- An mdev whose matrix cannot be read is left as it is, and the claim fails with the read's error.
    pub ensure_mdev_unreadable :
        {e : MatrixError} {w2 : os.World}
        → read_matrix os claim_uid w1 ≡ (err e, w2)
        → ensure_mdev os env claim_uid mode c w ≡ (err (read_existing e), w2)
    unfolding ensure_mdev
    ensure_mdev_unreadable read = ground arith

  module _ (absent : exists os claim_uid w ≡ (false, w1)) where
    -- No mdev is created for a claim whose queues cannot all be switched: the switching, with its roll
    -- back, is all that happened.
    pub ensure_mdev_unswitched :
        {e : PrepareError}
        → (switch_queues_to_vfio_ap os env c.allocated w1).0 ≡ err e
        → ensure_mdev os env claim_uid mode c w
          ≡ (err e, (switch_queues_to_vfio_ap os env c.allocated w1).1)
    unfolding ensure_mdev build_mdev make_mdev
    ensure_mdev_unswitched refused = ground arith

    -- An mdev that was created and whose adapters and domains cannot all be assigned is removed again.
    pub ensure_mdev_unassigned :
        {e : MdevError} {w2 w3 w4 : os.World}
        → switch_queues_to_vfio_ap os env c.allocated w1 ≡ (ok tt, w2)
        → create os claim_uid w2 ≡ (ok tt, w3)
        → assign_mdev_matrix os env claim_uid c.adapters c.domains w3 ≡ (err e, w4)
        → ensure_mdev os env claim_uid mode c w ≡ (err (assign e), (destroy os claim_uid w4).1)
    unfolding ensure_mdev build_mdev make_mdev destroy_partial_mdev
    ensure_mdev_unassigned switched created refused = ground arith
