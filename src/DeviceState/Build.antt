-- ===== src/DeviceState/Build.antt =====
-- `ensureMdevForClaim` of internal/devicestate/state.go and what it calls.
use k8s_cex_dra_driver.Prelude.{
  Text, List, [], ◌∷◌, ◌++◌, Bool, true, ◌&&◌, ◌==◌, text_eq, nat_beq, length, contains,
  if◌then◌else◌,
}
use k8s_cex_dra_driver.Prelude.Exec.{Result, ok, err, Exec, pure, wrap, ◌>>=◌, ◌>>◌}
use k8s_cex_dra_driver.Os.{Os}
use k8s_cex_dra_driver.Mdev
use k8s_cex_dra_driver.Mdev.{Apqn, apqn_eq, MatrixError, MdevError, read_matrix, exists}
use k8s_cex_dra_driver.Binding.{switch_to_vfio_ap, switch_to_zcrypt}
use k8s_cex_dra_driver.CryptoConfig.{usage_only}
use k8s_cex_dra_driver.DeviceState.Env.{Env}
use k8s_cex_dra_driver.DeviceState.Allocation.{
  Collected, PrepareError, read_existing, destroy_partial, create_mdev, assign, context_ended,
  switch_queue,
}

unfoldable pub all_allocated : List Apqn → List Apqn → Bool
all_allocated allocated [] = true
all_allocated allocated (q ∷ queues) = contains allocated q && all_allocated allocated queues

-- The comparison of `mdevMatrixEquals`, on the queues that were read.
unfoldable pub matrix_equals : List Apqn → List Apqn → Bool
unfolding all_allocated
matrix_equals queues allocated =
    nat_beq (length queues) (length allocated) && all_allocated allocated queues

module _ (os : Os) where
  open os use {World}

  unfoldable pub mdev_matrix_equals : Text → List Apqn → Exec World MatrixError Bool
  unfolding matrix_equals
  mdev_matrix_equals uuid allocated = do
    queues ← read_matrix os uuid
    pure (matrix_equals queues allocated)

  -- The error of a best-effort removal is logged and dropped.
  unfoldable pub destroy_partial_mdev : Text → World → World
  destroy_partial_mdev claim_uid w = (Mdev.destroy os claim_uid w).1

  module _ (env : Env os) where
    -- Best-effort: an error of one queue is logged, and the next is switched.
    unfoldable pub rollback : List Apqn → World → World
    rollback [] w = w
    rollback (q ∷ queues) w = rollback queues (switch_to_zcrypt os env.verbose q.apid q.apqi w).1

    abbrev roll_back_and : PrepareError → List Apqn → Exec World PrepareError (Unit {0})
    roll_back_and e queues w = (err e, rollback queues w)

    -- The loop, with the queues that were switched so far.
    unfoldable pub switch_from : List Apqn → List Apqn → Exec World PrepareError (Unit {0})
    unfolding rollback
    switch_from [] switched w = (ok tt, w)
    switch_from (q ∷ queues) switched w =
        let stop = roll_back_and context_ended switched w in
        let go : Result PrepareError (Unit {0}) × World =
          let (r, w') = switch_to_vfio_ap os q.apid q.apqi w in
          elim r [
            | ok _ ↦ switch_from queues (switched ++ (q ∷ [])) w'
            | err e ↦ roll_back_and (switch_queue q e) (switched ++ (q ∷ [])) w'
          ] in
        if env.ended w then stop else go

    unfoldable pub switch_queues_to_vfio_ap : List Apqn → Exec World PrepareError (Unit {0})
    unfolding switch_from
    switch_queues_to_vfio_ap allocated w = switch_from (env.range_apqns w allocated) [] w

    unfoldable pub for_each :
        (Text → Exec World MdevError (Unit {0})) → List Text → Exec World MdevError (Unit {0})
    for_each f [] = pure tt
    for_each f (t ∷ texts) = f t >>= λ _. for_each f texts

    unfoldable pub assign_mdev_matrix :
        Text → List Text → List Text → Exec World MdevError (Unit {0})
    unfolding for_each
    assign_mdev_matrix claim_uid adapters domains = do
      λ w. for_each (Mdev.assign_adapter os claim_uid) (env.range_texts w adapters) w
      λ w. for_each (Mdev.assign_domain os claim_uid) (env.range_texts w domains) w

    unfoldable pub assign_mdev_control_domains :
        Text → Text → List Text → Exec World MdevError (Unit {0})
    unfolding for_each
    assign_mdev_control_domains claim_uid mode domains w =
        if mode == usage_only
        then (ok tt, w)
        else for_each (Mdev.assign_control_domain os claim_uid) (env.range_texts w domains) w

    -- A failed assignment removes the mdev that it left behind.
    abbrev pub or_destroy :
        Text → Exec World MdevError (Unit {0}) → Exec World PrepareError (Unit {0})
    or_destroy claim_uid m w =
        let (r, w') = m w in
        elim r [ ok _ ↦ (ok tt, w') | err e ↦ (err (assign e), destroy_partial_mdev claim_uid w') ]

    -- What follows the switching of the queues.
    unfoldable pub make_mdev : Text → Text → Collected → Exec World PrepareError (Unit {0})
    unfolding assign_mdev_matrix assign_mdev_control_domains destroy_partial_mdev
    make_mdev claim_uid mode c = do
      wrap create_mdev (Mdev.create os claim_uid)
      or_destroy claim_uid (assign_mdev_matrix claim_uid c.adapters c.domains)
      or_destroy claim_uid (assign_mdev_control_domains claim_uid mode c.domains)

    unfoldable pub build_mdev : Text → Text → Collected → Exec World PrepareError (Unit {0})
    unfolding switch_queues_to_vfio_ap make_mdev
    build_mdev claim_uid mode c = do
      switch_queues_to_vfio_ap c.allocated
      make_mdev claim_uid mode c

    abbrev rebuild_mdev : Text → Text → Collected → Exec World PrepareError (Unit {0})
    rebuild_mdev claim_uid mode c = do
      wrap destroy_partial (Mdev.destroy os claim_uid)
      build_mdev claim_uid mode c

    -- An mdev that is there is kept if its matrix is complete.
    unfoldable pub keep_or_rebuild : Text → Text → Collected → Exec World PrepareError (Unit {0})
    unfolding mdev_matrix_equals build_mdev
    keep_or_rebuild claim_uid mode c = do
      complete ← wrap read_existing (mdev_matrix_equals claim_uid c.allocated)
      if complete then pure tt else rebuild_mdev claim_uid mode c

    unfoldable pub ensure_mdev : Text → Text → Collected → Exec World PrepareError (Unit {0})
    unfolding keep_or_rebuild
    ensure_mdev claim_uid mode c w =
        let (found, w') = exists os claim_uid w in
        if found then keep_or_rebuild claim_uid mode c w' else build_mdev claim_uid mode c w'
