-- ===== src/DeviceState/Prepare.antt =====
-- `Prepare` of internal/devicestate/state.go.
pub mod Gates
pub mod Effects
pub mod Queues
pub mod Guest
use k8s_cex_dra_driver.Prelude.{
  Text, List, [], ◌∷◌, ◌++◌, Bool, true, false, not, ◌&&◌, ◌||◌, Option, none, some, ◌==◌, text_eq,
  map, if◌then◌else◌,
}
use k8s_cex_dra_driver.Prelude.Exec.{Result, ok, err, Exec, pure, raise, wrap, map_err, ◌>>=◌, ◌>>◌}
use k8s_cex_dra_driver.Prelude.Dict.{get, or_default}
use k8s_cex_dra_driver.Prelude.Strings.{bytes}
use k8s_cex_dra_driver.Os.{Os}
use k8s_cex_dra_driver.Resource.{Allocation, ResourceClaim, PreparedDevice}
use k8s_cex_dra_driver.CryptoConfig.{CryptoConfig, resolve}
use k8s_cex_dra_driver.CryptoConfig.ControlDomain.{validate_control_domain_mode}
use k8s_cex_dra_driver.Metadata
use k8s_cex_dra_driver.Metadata.{ClaimParams, Mount, generate_claim_metadata}
use k8s_cex_dra_driver.Cdi.{SpecMount, generate_claim_spec}
use k8s_cex_dra_driver.DeviceState.{DeviceState}
use k8s_cex_dra_driver.DeviceState.Env.{Env}
use k8s_cex_dra_driver.DeviceState.Allocation.{
  Classes, Collected, PrepareError, lock_wait, not_allocated, mixed_classes, container_gate,
  virtual_machine_gate, resolve_config, control_domain_mode, generate_metadata, generate_spec,
  binding_mode, collect_allocated_apqns, devices_from_results, group_results_by_request,
}
use k8s_cex_dra_driver.DeviceState.Build.{ensure_mdev}

-- A pure step in the middle of `Prepare`.
abbrev pub lift : {W E A : Type 0} → Result E A → Exec W E A
lift r w = (r, w)

abbrev pub no_class : Classes
no_class = record { has_vm = false; has_container = false }

unfoldable pub pod_claim_name_annotation : Text
pod_claim_name_annotation = bytes "resource.kubernetes.io/pod-claim-name"

unfoldable pub spec_mount : Mount → SpecMount
spec_mount m = record {
  host_path = m.host_path;
  container_path = m.container_path;
  options = bytes "ro" ∷ bytes "bind" ∷ [];
}

-- The tests between the classes and the configuration.
unfoldable pub check_classes : Bool → Bool → Classes → Result PrepareError (Unit {0})
check_classes container_workload virtual_machine_workload c =
    if c.has_vm && c.has_container
    then err mixed_classes
    else if c.has_container && not container_workload
    then err container_gate
    else if c.has_vm && not virtual_machine_workload
    then err virtual_machine_gate
    else ok tt

module _ (os : Os) (env : Env os) (s : DeviceState) (claim : ResourceClaim) where
  open os use {World}

  unfoldable pub claim_params : Allocation → ClaimParams
  claim_params a = record {
    plugin_data_dir = s.plugin_data_dir;
    claim_name = claim.name;
    claim_namespace = claim.namespace;
    claim_uid = claim.uid;
    driver_name = s.driver_name;
    mdev_uuid = claim.uid;
    pod_claim_name = or_default [] (get pod_claim_name_annotation claim.annotations);
    request_devices = group_results_by_request s.driver_name a.results [];
  }

  -- All that may be rejected before the mdev is touched: the binding and the configuration.
  unfoldable pub admit : Allocation → Result PrepareError (Classes × CryptoConfig)
  unfolding check_classes
  admit a = elim (binding_mode s.driver_name claim.requests a.results no_class) [
    | err e ↦ err e
    | ok c ↦ elim (check_classes env.container_workload env.virtual_machine_workload c) [
      | err e ↦ err e
      | ok _ ↦ elim (resolve env.decode s.driver_name a.config) [
        | err e ↦ err (resolve_config e)
        | ok cfg ↦ ok (c, cfg)
      ]
    ]
  ]

  unfoldable pub devices_from_claim :
      Allocation → List Text → Result PrepareError (List PreparedDevice)
  devices_from_claim a ids = devices_from_results s.driver_name s.allocatable ids a.results []

  -- What follows the mdev: the metadata, the CDI spec and the answer.
  unfoldable pub announce : Allocation → Exec World PrepareError (List PreparedDevice)
  unfolding devices_from_claim
  announce a = do
    mounts ← wrap generate_metadata (
        generate_claim_metadata env.marshal_metadata env.unmarshal_metadata os env.range_texts
          (claim_params a))
    id ←
        wrap generate_spec
          (generate_claim_spec os env.marshal_spec s.cdi_root claim.uid (map spec_mount mounts))
    lift (devices_from_claim a (id ∷ []))

  -- An mdev for the queues, once they are collected.
  unfoldable pub prepare_queues :
      Allocation → CryptoConfig → Collected → Exec World PrepareError (List PreparedDevice)
  unfolding announce
  prepare_queues a cfg collected = do
    ensure_mdev os env claim.uid cfg.control_domain_mode collected
    announce a

  unfoldable pub prepare_vm :
      Allocation → CryptoConfig → Exec World PrepareError (List PreparedDevice)
  unfolding prepare_queues
  prepare_vm a cfg = do
    lift (map_err control_domain_mode (validate_control_domain_mode cfg.control_domain_mode))
    collected ← lift (collect_allocated_apqns s.driver_name s.allocatable a.results)
    prepare_queues a cfg collected

  abbrev pub prepare_bound :
      Allocation → Classes × CryptoConfig → Exec World PrepareError (List PreparedDevice)
  prepare_bound a (c, cfg) =
      if c.has_container then lift (devices_from_claim a []) else prepare_vm a cfg

  unfoldable pub prepare_locked : Exec World PrepareError (List PreparedDevice)
  unfolding admit prepare_vm
  prepare_locked = elim claim.allocation [
    | none ↦ raise not_allocated
    | some a ↦ lift (admit a) >>= prepare_bound a
  ]

  -- A context that has ended, or ends during the wait, gives up the lock.
  unfoldable pub prepare : Exec World PrepareError (List PreparedDevice)
  unfolding prepare_locked
  prepare w = if env.ended w || env.gave_up w then (err lock_wait, w) else prepare_locked w
