-- ===== src/DeviceState/Prepare/Effects.antt =====
-- What `Prepare` leaves alone, given what `ensureMdevForClaim` leaves alone.
use k8s_cex_dra_driver.Prelude.{
  Text, List, [], ◌∷◌, false, Option, none, some, ◌≡◌, refl, ◌∙◌, sym, map, arith,
}
use k8s_cex_dra_driver.Prelude.Exec.{ok, Exec, map_err, ◌>>=◌, bind_ok}
use k8s_cex_dra_driver.Os.{Os}
use k8s_cex_dra_driver.Resource.{Allocation, ResourceClaim, PreparedDevice}
use k8s_cex_dra_driver.CryptoConfig.{CryptoConfig}
use k8s_cex_dra_driver.CryptoConfig.ControlDomain.{validate_control_domain_mode}
use k8s_cex_dra_driver.DeviceState.{DeviceState}
use k8s_cex_dra_driver.DeviceState.Env.{Env}
use k8s_cex_dra_driver.DeviceState.Allocation.{
  Classes, Collected, PrepareError, generate_metadata, generate_spec, control_domain_mode,
  collect_allocated_apqns,
}
use k8s_cex_dra_driver.DeviceState.Build.{ensure_mdev}
use k8s_cex_dra_driver.DeviceState.Quiet.{
  Quiet, Leaves, Leaves-pure, Leaves-wrap, Leaves-bind, look-pure, look-continue,
  generate_claim_metadata-Leaves, generate_claim_spec-Leaves,
}
use k8s_cex_dra_driver.DeviceState.Prepare.{
  lift, spec_mount, claim_params, admit, devices_from_claim, announce, prepare_queues, prepare_vm,
  prepare_bound, prepare_locked, prepare,
}

module _ (os : Os) (env : Env os) (s : DeviceState) (claim : ResourceClaim) {A : Type 0}
    (look : os.World → A) (quiet : Quiet os look) where
  pub announce-Leaves : (a : Allocation) → Leaves look (announce os env s claim a)
  unfolding announce
  announce-Leaves a =
      Leaves-bind look
        (Leaves-wrap look generate_metadata (
          generate_claim_metadata-Leaves os look quiet env.marshal_metadata env.unmarshal_metadata
            env.range_texts (claim_params os env s claim a)))
        λ mounts.
          Leaves-bind look
            (Leaves-wrap look generate_spec (
              generate_claim_spec-Leaves os look quiet env.marshal_spec s.cdi_root claim.uid
                (map spec_mount mounts)))
            λ id. Leaves-pure look (devices_from_claim os env s claim a (id ∷ []))

  -- The mdev is the first thing that `Prepare` touches, so it is enough what becomes of the part from
  -- the world that `Prepare` finds.
  module _ (w : os.World)
      (ensures : (a : Allocation) (c : Collected) (mode : Text)
        → claim.allocation ≡ some a
        → collect_allocated_apqns s.driver_name s.allocatable a.results ≡ ok c
        → look (ensure_mdev os env claim.uid mode c w).1 ≡ look w) where
    prepare_queues-look :
        (a : Allocation) (cfg : CryptoConfig) (c : Collected)
        → claim.allocation ≡ some a
        → collect_allocated_apqns s.driver_name s.allocatable a.results ≡ ok c
        → look (prepare_queues os env s claim a cfg c w).1 ≡ look w
    unfolding prepare_queues
    prepare_queues-look a cfg c e f =
        let (r, v) = ensure_mdev os env claim.uid cfg.control_domain_mode c w in
        look-continue look r (λ built. announce os env s claim a) v (λ built. announce-Leaves a)
        ∙ ensures a c cfg.control_domain_mode e f

    prepare_vm-look :
        (a : Allocation) (cfg : CryptoConfig)
        → claim.allocation ≡ some a
        → look (prepare_vm os env s claim a cfg w).1 ≡ look w
    unfolding prepare_vm
    prepare_vm-look a cfg e =
        let collected = collect_allocated_apqns s.driver_name s.allocatable a.results in
        let rest : Exec os.World PrepareError (List PreparedDevice) =
          lift collected >>= prepare_queues os env s claim a cfg in
        look-pure look
          (map_err control_domain_mode (validate_control_domain_mode cfg.control_domain_mode))
          (λ valid. rest) w
          λ valid v.
            look-pure look collected (prepare_queues os env s claim a cfg) w
              λ c f. prepare_queues-look a cfg c e f

    prepare_locked-look :
        (o : Option Allocation)
        → claim.allocation ≡ o
        → look (prepare_locked os env s claim w).1 ≡ look w
    unfolding prepare_locked
    prepare_locked-look none e = ground arith
    prepare_locked-look (some a) e =
        let admitted =
          look-pure look (admit os env s claim a) (prepare_bound os env s claim a) w (bound a e) in
        ground (arith, admitted)
      where
        bound :
            (a : Allocation)
            → claim.allocation ≡ some a
            → (p : Classes × CryptoConfig) → admit os env s claim a ≡ ok p
            → look (prepare_bound os env s claim a p w).1 ≡ look w
        bound a e (c, cfg) f = ground (arith, prepare_vm-look a cfg e)

    pub prepare-look : look (prepare os env s claim w).1 ≡ look w
    unfolding prepare
    prepare-look = ground (arith, prepare_locked-look claim.allocation refl)

module _ (os : Os) (env : Env os) (s : DeviceState) (claim : ResourceClaim) where
  abbrev pub IsVm : Allocation → Classes → CryptoConfig → Type 0
  IsVm a c cfg =
      (claim.allocation ≡ some a)
      × (admit os env s claim a ≡ ok (c, cfg))
      × (c.has_container ≡ false)

  -- What the success of `Prepare` for a VM claim says of its steps.
  abbrev pub Steps : Allocation → CryptoConfig → os.World → Type 0
  Steps a cfg w =
      (c : Collected) × (collect_allocated_apqns s.driver_name s.allocatable a.results ≡ ok c)
      × ((ensure_mdev os env claim.uid cfg.control_domain_mode c w).0 ≡ ok tt)
      × ((prepare os env s claim w).1
          ≡ (announce os env s claim a
              (ensure_mdev os env claim.uid cfg.control_domain_mode c w).1).1)

  prepare-vm :
      (a : Allocation) (c : Classes) (cfg : CryptoConfig) (w : os.World) (ds : List PreparedDevice)
      → IsVm a c cfg
      → (prepare os env s claim w).0 ≡ ok ds
      → prepare os env s claim w ≡ prepare_vm os env s claim a cfg w
  unfolding prepare prepare_locked
  prepare-vm a c cfg w ds (allocated, admitted, vm) done = ground arith

  pub prepare_ok :
      (a : Allocation) (c : Classes) (cfg : CryptoConfig) (w : os.World) (ds : List PreparedDevice)
      → IsVm a c cfg
      → (prepare os env s claim w).0 ≡ ok ds
      → Steps a cfg w
  unfolding prepare_vm prepare_queues
  prepare_ok a c cfg w ds vm done =
      let e0 = prepare-vm a c cfg w ds vm done in
      let collected = collect_allocated_apqns s.driver_name s.allocatable a.results in
      let rest : Exec os.World PrepareError (List PreparedDevice) =
        lift collected >>= prepare_queues os env s claim a cfg in
      let (u1, r1, e1) =
        bind_ok
          (lift
            (map_err control_domain_mode (validate_control_domain_mode cfg.control_domain_mode)))
          (λ _. rest) w ds (rw e0 at done) in
      let (col, r2, e2) =
        bind_ok (lift collected) (prepare_queues os env s claim a cfg) w ds
          (sym (λ i. (e1 i).0) ∙ rw e0 at done) in
      let ensured = ensure_mdev os env claim.uid cfg.control_domain_mode col in
      let (u3, r3, e3) =
        bind_ok ensured (λ _. announce os env s claim a) w ds
          (sym (λ i. (e2 i).0) ∙ sym (λ i. (e1 i).0) ∙ rw e0 at done) in
      (col, r2, r3, (λ i. (e0 i).1) ∙ (λ i. (e1 i).1) ∙ (λ i. (e2 i).1) ∙ (λ i. (e3 i).1))
