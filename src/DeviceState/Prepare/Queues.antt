-- ===== src/DeviceState/Prepare/Queues.antt =====
-- Which queues `Prepare` touches, and where it leaves those of its claim.
use k8s_cex_dra_driver.Prelude.{
  Text, List, true, false, ◌≡◌, ◌⊎◌, inl, inr, ◌∙◌, sym, ap, some, ◌==◌, text_eq, contains,
  All-contains,
}
use k8s_cex_dra_driver.Prelude.Exec.{ok}
use k8s_cex_dra_driver.Os.{Os}
use k8s_cex_dra_driver.Mdev.{Apqn, apqn_eq}
use k8s_cex_dra_driver.Resource.{Allocation, ResourceClaim, PreparedDevice}
use k8s_cex_dra_driver.CryptoConfig.{CryptoConfig}
use k8s_cex_dra_driver.Binding.Kernel.{
  Kernel, SameQueue, SameQueue-of, of_SameQueue, queue_at, queue_at-Quiet,
}
use k8s_cex_dra_driver.DeviceState.{DeviceState}
use k8s_cex_dra_driver.DeviceState.Env.{Env}
use k8s_cex_dra_driver.DeviceState.Allocation.{Classes}
use k8s_cex_dra_driver.DeviceState.Build.{ensure_mdev}
use k8s_cex_dra_driver.DeviceState.Matrix.{allocates, matrix_spans_allocation, collected-IsNodup}
use k8s_cex_dra_driver.DeviceState.Rollback.{id_of, IsPassedThrough}
use k8s_cex_dra_driver.DeviceState.Ensure.Queues.{ensure_mdev_same, ensure_mdev-IsPassedThrough}
use k8s_cex_dra_driver.DeviceState.Guests.{Guests}
use k8s_cex_dra_driver.DeviceState.Guests.Ensure.{complete-IsBuilt}
use k8s_cex_dra_driver.DeviceState.Prepare.{prepare}
use k8s_cex_dra_driver.DeviceState.Prepare.Effects.{IsVm, announce-Leaves, prepare_ok, prepare-look}

module _ (os : Os) (k : Kernel os) (env : Env os) (s : DeviceState) (claim : ResourceClaim)
    (visits : (w : os.World) (queues : List Apqn) (q : Apqn)
      → contains (env.range_apqns w queues) q ≡ contains queues q) where
  -- `Prepare`, whether and wherever it fails, leaves the override and the driver of every queue alone
  -- that no result of the claim for this driver names. A range over a set visits its members
  -- only, and all of them.
  pub prepare_same :
      (id : Text) (w : os.World)
      → ((a : Allocation) (q : Apqn)
          → claim.allocation ≡ some a
          → allocates s.driver_name s.allocatable a.results q ≡ true
          → (id_of q == id) ≡ false)
      → SameQueue os k id w (prepare os env s claim w).1
  prepare_same id w others = SameQueue-of os k id _ _ (
      prepare-look os env s claim (queue_at os k id) (queue_at-Quiet os k id) w λ a c mode e f.
        of_SameQueue os k id _ _ (
          ensure_mdev_same os k env claim.uid id mode c w λ v.
            All-contains (λ q. (id_of q == id) ≡ false) (env.range_apqns v c.allocated)
              λ q m. others a q e (
                sym (matrix_spans_allocation s.driver_name s.allocatable a.results c f q).1
                ∙ sym (visits v c.allocated q)
                ∙ m)))

module _ (os : Os) (g : Guests os) (k : Kernel os) (env : Env os) (s : DeviceState)
    (claim : ResourceClaim)
    (visits : (w : os.World) (queues : List Apqn) (q : Apqn)
      → contains (env.range_apqns w queues) q ≡ contains queues q)
    (visits_texts : (w : os.World) (texts : List Text) (t : Text)
      → contains (env.range_texts w texts) t ≡ contains texts t) where
  -- When `Prepare` succeeds for a VM claim, its mdev was there and its matrix listed exactly the queues
  -- that the claim's results for this driver name, or each of these queues carries the marker and has
  -- the driver that the bus attaches for it. A range over a set visits its members only, and all of
  -- them.
  pub prepare-IsPassedThrough :
      (a : Allocation) (c : Classes) (cfg : CryptoConfig) (w : os.World) (ds : List PreparedDevice)
      (q : Apqn)
      → IsVm os env s claim a c cfg
      → allocates s.driver_name s.allocatable a.results q ≡ true
      → (prepare os env s claim w).0 ≡ ok ds
      → (((g.guest w claim.uid).present ≡ true)
          × ((p : Apqn)
              → contains (g.guest w claim.uid).rows p
                ≡ allocates s.driver_name s.allocatable a.results p))
        ⊎ IsPassedThrough os k env (id_of q) (prepare os env s claim w).1
  prepare-IsPassedThrough a c cfg w ds q vm m done =
      let (col, f, ensured, last) = prepare_ok os env s claim a c cfg w ds vm done in
      let v = (ensure_mdev os env claim.uid cfg.control_domain_mode col w).1 in
      let look = queue_at os k (id_of q) in
      let spans = matrix_spans_allocation s.driver_name s.allocatable a.results col f in
      let same : look (prepare os env s claim w).1 ≡ look v =
        ap look last
        ∙ (announce-Leaves os env s claim look (queue_at-Quiet os k (id_of q)) a).at v in
      elim (ensure_mdev-IsPassedThrough os k env claim.uid cfg.control_domain_mode col w q
        (λ u. visits u col.allocated q) ((spans q).1 ∙ m) ensured) [
          | inl complete ↦
              let (present, rows) =
                complete-IsBuilt os g claim.uid env visits_texts cfg.control_domain_mode col w
                  complete (collected-IsNodup s.driver_name s.allocatable a.results col f) in
              inl (present, λ p. rows p ∙ (spans p).1)
          | inr (o, d) ↦ let (o', d') = SameQueue-of os k (id_of q) _ _ same in inr (o' ∙ o, d' ∙ d)
        ]
