-- ===== src/DeviceState/Ensure/Queues.antt =====
-- Which queues `ensureMdevForClaim` touches, and where it leaves those of its claim.
use k8s_cex_dra_driver.Prelude.{
  Text, List, [], ◌∷◌, ◌++◌, true, ◌≡◌, ◌⊎◌, inl, inr, refl, ◌∙◌, text_eq, contains, arith,
}
use k8s_cex_dra_driver.Prelude.Strings.{bytes}
use k8s_cex_dra_driver.Prelude.Exec.{ok, Exec, bind_ok}
use k8s_cex_dra_driver.Os.{Os}
use k8s_cex_dra_driver.Mdev
use k8s_cex_dra_driver.Mdev.{Apqn, apqn_eq, MatrixError, MdevError, exists, vfio_ap_matrix_path}
use k8s_cex_dra_driver.Binding.Kernel.{
  Kernel, SameQueue, SameQueue-trans, SameQueue-of, of_SameQueue, queue_at, queue_at-Quiet,
}
use k8s_cex_dra_driver.Binding.Mdevs.{destroy-Same, read_matrix-Same}
use k8s_cex_dra_driver.DeviceState.Quiet.{Leaves}
use k8s_cex_dra_driver.DeviceState.Ensure.Outcome.{IsComplete, Outcome, ensure_mdev-Outcome}
use k8s_cex_dra_driver.DeviceState.Env.{Env}
use k8s_cex_dra_driver.DeviceState.Allocation.{Collected}
use k8s_cex_dra_driver.DeviceState.Build.{
  mdev_matrix_equals, switch_queues_to_vfio_ap, for_each, assign_mdev_matrix,
  assign_mdev_control_domains, destroy_partial_mdev, make_mdev, build_mdev, ensure_mdev,
}
use k8s_cex_dra_driver.DeviceState.Rollback.{
  id_of, Lacks, IsPassedThrough, switch_from_same, switch_queues_ok,
}

module _ (os : Os) (k : Kernel os) (env : Env os) (claim_uid id : Text) where
  open k use {attribute_same, create_same}

  abbrev Same : os.World → os.World → Type 0
  Same = SameQueue os k id

  mdev_matrix_equals-Same :
      (allocated : List Apqn) (w : os.World)
      → Same w (mdev_matrix_equals os claim_uid allocated w).1
  unfolding mdev_matrix_equals
  mdev_matrix_equals-Same allocated w = ground (arith, read_matrix-Same os k id claim_uid w)

  for_each-Same :
      (f : Text → Exec os.World MdevError (Unit {0}))
      → ((t : Text) (w : os.World) → Same w (f t w).1)
      → (texts : List Text) (w : os.World) → Same w (for_each os env f texts w).1
  unfolding for_each
  for_each-Same f h [] w = (refl, refl)
  for_each-Same f h (t ∷ texts) w = ground (arith, h t w, for_each-Same f h texts (f t w).1)

  create-Same : (w : os.World) → Same w (Mdev.create os claim_uid w).1
  unfolding Mdev.create
  create-Same w = ground (arith, create_same claim_uid w id)

  assign_adapter-Same : (t : Text) (w : os.World) → Same w (Mdev.assign_adapter os claim_uid t w).1
  unfolding Mdev.assign_adapter
  assign_adapter-Same t w =
      ground (arith, attribute_same claim_uid (bytes "assign_adapter") (bytes "0x" ++ t) w id)

  assign_domain-Same : (t : Text) (w : os.World) → Same w (Mdev.assign_domain os claim_uid t w).1
  unfolding Mdev.assign_domain
  assign_domain-Same t w =
      ground (arith, attribute_same claim_uid (bytes "assign_domain") (bytes "0x" ++ t) w id)

  assign_control_domain-Same :
      (t : Text) (w : os.World) → Same w (Mdev.assign_control_domain os claim_uid t w).1
  unfolding Mdev.assign_control_domain
  assign_control_domain-Same t w =
      ground
        (arith, attribute_same claim_uid (bytes "assign_control_domain") (bytes "0x" ++ t) w id)

  assign_mdev_matrix-Same :
      (adapters domains : List Text) (w : os.World)
      → Same w (assign_mdev_matrix os env claim_uid adapters domains w).1
  unfolding assign_mdev_matrix
  assign_mdev_matrix-Same adapters domains w =
      let v =
        (for_each os env (Mdev.assign_adapter os claim_uid) (env.range_texts w adapters) w).1 in
      ground (
        arith,
        for_each-Same (Mdev.assign_adapter os claim_uid) assign_adapter-Same
            (env.range_texts w adapters) w,
        for_each-Same (Mdev.assign_domain os claim_uid) assign_domain-Same
            (env.range_texts v domains) v,
      )

  assign_mdev_control_domains-Same :
      (mode : Text) (domains : List Text) (w : os.World)
      → Same w (assign_mdev_control_domains os env claim_uid mode domains w).1
  unfolding assign_mdev_control_domains
  assign_mdev_control_domains-Same mode domains w = ground (
    arith,
    for_each-Same (Mdev.assign_control_domain os claim_uid) assign_control_domain-Same
        (env.range_texts w domains) w,
  )

  switch_queues-Same :
      (allocated : List Apqn) (w : os.World)
      → Lacks id (env.range_apqns w allocated)
      → Same w (switch_queues_to_vfio_ap os env allocated w).1
  unfolding switch_queues_to_vfio_ap
  switch_queues-Same allocated w h =
      switch_from_same os k env id (env.range_apqns w allocated) [] w h tt

  -- What follows the switching of the queues touches none.
  build_mdev-Same :
      (mode : Text) (c : Collected) (w : os.World)
      → Same
          (switch_queues_to_vfio_ap os env c.allocated w).1
          (build_mdev os env claim_uid mode c w).1
  unfolding build_mdev make_mdev destroy_partial_mdev
  build_mdev-Same mode c w =
      let switched = (switch_queues_to_vfio_ap os env c.allocated w).1 in
      let created = (Mdev.create os claim_uid switched).1 in
      let filled = (assign_mdev_matrix os env claim_uid c.adapters c.domains created).1 in
      let controlled = (assign_mdev_control_domains os env claim_uid mode c.domains filled).1 in
      ground (
        arith,
        create-Same switched,
        assign_mdev_matrix-Same c.adapters c.domains created,
        destroy-Same os k id claim_uid filled,
        assign_mdev_control_domains-Same mode c.domains filled,
        destroy-Same os k id claim_uid controlled,
      )

  destroy-Leaves : Leaves (queue_at os k id) (Mdev.destroy os claim_uid)
  destroy-Leaves = record { at = λ w. of_SameQueue os k id _ _ (destroy-Same os k id claim_uid w) }

  outcome :
      (mode : Text) (c : Collected) (w : os.World)
      → Outcome os env claim_uid c w (queue_at os k id) (queue_at-Quiet os k id) destroy-Leaves mode
  outcome mode c w =
      ensure_mdev-Outcome os env claim_uid c w (queue_at os k id) (queue_at-Quiet os k id)
        destroy-Leaves mode

  -- `ensureMdevForClaim`, whether and wherever it fails, leaves the override and the driver of a queue
  -- alone that is not visited by the range over the queues of the claim.
  pub ensure_mdev_same :
      (mode : Text) (c : Collected) (w : os.World)
      → ((v : os.World) → Lacks id (env.range_apqns v c.allocated))
      → SameQueue os k id w (ensure_mdev os env claim_uid mode c w).1
  ensure_mdev_same mode c w lacking = elim (outcome mode c w) [
    | inl (complete, e, same) ↦ rw e (SameQueue-of os k id _ _ same)
    | inr (inr (e, failed, same)) ↦ SameQueue-of os k id _ _ same
    | inr (inl (v, same, built)) ↦ rw built (
        SameQueue-trans os k (SameQueue-of os k id _ _ same) (
          SameQueue-trans os k (switch_queues-Same c.allocated v (lacking v))
            (build_mdev-Same mode c v)))
  ]

module _ (os : Os) (k : Kernel os) (env : Env os) where
  build_mdev-switched :
      (claim_uid mode : Text) (c : Collected) (w : os.World)
      → (build_mdev os env claim_uid mode c w).0 ≡ ok tt
      → (switch_queues_to_vfio_ap os env c.allocated w).0 ≡ ok tt
  unfolding build_mdev
  build_mdev-switched claim_uid mode c w h =
      (bind_ok (switch_queues_to_vfio_ap os env c.allocated)
        (λ _. make_mdev os env claim_uid mode c) w tt h).1

  -- When `ensureMdevForClaim` succeeds, the mdev was there and held the queues of the claim, or each
  -- queue of the claim carries the marker and has the driver that the bus attaches for it. The range
  -- over the set visits each of its queues.
  pub ensure_mdev-IsPassedThrough :
      (claim_uid mode : Text) (c : Collected) (w : os.World) (p : Apqn)
      → ((v : os.World) → contains (env.range_apqns v c.allocated) p ≡ contains c.allocated p)
      → contains c.allocated p ≡ true
      → (ensure_mdev os env claim_uid mode c w).0 ≡ ok tt
      → IsComplete os env claim_uid c w
        ⊎ IsPassedThrough os k env (id_of p) (ensure_mdev os env claim_uid mode c w).1
  ensure_mdev-IsPassedThrough claim_uid mode c w p visits m done =
      elim (outcome os k env claim_uid (id_of p) mode c w) [
        | inl (complete, e, same) ↦ inl complete
        | inr (inr (e, failed, same)) ↦ absurd (ground arith)
        | inr (inl (v, same, built)) ↦
            let switched = build_mdev-switched claim_uid mode c v (rw built at done) in
            let passed = switch_queues_ok os k env c.allocated v p (visits v) switched m in
            let (o, d) = build_mdev-Same os k env claim_uid (id_of p) mode c v in
            inr (rw built (o ∙ passed.0, d ∙ passed.1))
      ]
