-- ===== src/Tests/Claims.antt =====
-- Claims that are prepared and refused on a small node.
use k8s_cex_dra_driver.Prelude.{
  arith, Text, List, [], ◌∷◌, Bool, true, false, ◌&&◌, some, ◌≡◌, refl, text_eq, text_beq, contains,
  insert,
}
use k8s_cex_dra_driver.Prelude.Exec.{ok, err, is_ok}
use k8s_cex_dra_driver.Prelude.Dict.{get}
use k8s_cex_dra_driver.Prelude.Strings.{bytes}
use k8s_cex_dra_driver.Os.{failed}
use k8s_cex_dra_driver.Mdev.{apqn_eq}
use k8s_cex_dra_driver.Resource.{AllocationResult, ResourceClaim, PreparedDevice}
use k8s_cex_dra_driver.Binding.{
  driver_override_path, vfio_ap, newline, write_override, unbind_queue, log_override,
  device_unbind_path,
}
use k8s_cex_dra_driver.Binding.Kernel.{is_tracked}
use k8s_cex_dra_driver.Binding.Switch.{read_before}
use k8s_cex_dra_driver.CryptoConfig.{
  CryptoConfig, kind_value, api_version_value, usage_only, usage_and_control, all_control_domains,
  parse, merge, resolve,
}
use k8s_cex_dra_driver.CryptoConfig.ControlDomain.{mode_not_enabled, validate_control_domain_mode}
use k8s_cex_dra_driver.DeviceState.Allocation.{
  control_domain_mode, switch_queue, collect_allocated_apqns, device_class_vm,
  device_class_container, apid_name, apqi_name, device_class_for_request,
}
use k8s_cex_dra_driver.DeviceState.Matrix.{allocates, matrix_spans_allocation}
use k8s_cex_dra_driver.DeviceState.Build.{switch_from}
use k8s_cex_dra_driver.DeviceState.Rollback.{id_of, rollback_loses_queue}
use k8s_cex_dra_driver.DeviceState.Prepare.{prepare}
use k8s_cex_dra_driver.DeviceState.Prepare.Gates.{
  names_class, all_known, prepare_container, refusal, prepare_refused,
}
use k8s_cex_dra_driver.Sample.Node.{node_os, node_kernel, bus, locked_bus, write}
use k8s_cex_dra_driver.Sample.Claim.{
  env, state, results, claim_of, vm_claim, first, second, collected,
}

abbrev given : List AllocationResult
given = results (bytes "a")

collects : collect_allocated_apqns state.driver_name state.allocatable given ≡ ok collected
unfolding collect_allocated_apqns text_beq bytes get apid_name apqi_name insert
collects = refl

matrix_spans_allocation_example :
    ((contains collected.adapters second.apid && contains collected.domains second.apqi)
      ≡ contains collected.allocated second)
    × (contains collected.allocated second
        ≡ allocates state.driver_name state.allocatable given second)
matrix_spans_allocation_example =
    matrix_spans_allocation state.driver_name state.allocatable given collected collects second

abbrev tried : node_os.World
tried = (node_os.write_file (driver_override_path first.apid first.apqi) vfio_ap locked_bus).1

no_override : node_kernel.override locked_bus (id_of first) ≡ []
unfolding node_kernel bytes text_beq
no_override = refl

override_refused :
    (node_os.write_file (driver_override_path first.apid first.apqi) vfio_ap locked_bus).0
    ≡ err failed
unfolding write driver_override_path bytes text_beq
override_refused = refl

unbinds : (unbind_queue node_os first.apid first.apqi tried).0 ≡ ok tt
unfolding unbind_queue write driver_override_path device_unbind_path bytes text_beq
unbinds = refl

newline_refused :
    is_ok
      (node_os.write_file
        (driver_override_path first.apid first.apqi)
        newline
        (read_before node_os node_kernel first.apid first.apqi false tried)).0
    ≡ false
unfolding unbind_queue write log_override driver_override_path device_unbind_path bytes text_beq
newline_refused = refl

rollback_loses_queue_example :
    let r = switch_from node_os env (first ∷ second ∷ []) [] locked_bus in
    (r.0 ≡ err (switch_queue first (write_override failed)))
    × (is_tracked node_os node_kernel tried (id_of first)
        ≡ is_tracked node_os node_kernel locked_bus (id_of first))
    × (is_tracked node_os node_kernel r.1 (id_of first) ≡ false)
rollback_loses_queue_example =
    rollback_loses_queue node_os node_kernel env first (second ∷ []) locked_bus failed refl
      no_override override_refused unbinds newline_refused

abbrev container_claim : ResourceClaim
container_claim = claim_of device_class_container device_class_vm (bytes "a") []

abbrev mixed_claim : ResourceClaim
mixed_claim = claim_of device_class_container device_class_vm (bytes "b") []

abbrev wide_claim : ResourceClaim
wide_claim =
    claim_of device_class_vm device_class_vm (bytes "a")
      (some (record { driver = bytes "cex.ibm.com"; raw = bytes "all" }) ∷ [])

abbrev class_named : ResourceClaim → Text → Text → Bool
class_named claim other class_name =
    names_class state.driver_name claim.requests class_name (results other)

container_claim_known : all_known state.driver_name container_claim.requests given ≡ true
unfolding all_known device_class_for_request bytes text_beq device_class_vm device_class_container
container_claim_known = refl

container_claim_class : class_named container_claim (bytes "a") device_class_container ≡ true
unfolding names_class device_class_for_request bytes text_beq device_class_vm device_class_container
container_claim_class = refl

prepare_container_example :
    ((prepare node_os env state container_claim bus).1 ≡ bus)
    × ((devices : List PreparedDevice)
        → (prepare node_os env state container_claim bus).0 ≡ ok devices
        → (true ≡ true) × (class_named container_claim (bytes "a") device_class_vm ≡ false))
prepare_container_example =
    prepare_container node_os env state container_claim refl container_claim_known bus
      container_claim_class

vm_claim_known : all_known state.driver_name vm_claim.requests given ≡ true
unfolding all_known device_class_for_request bytes text_beq device_class_vm device_class_container
vm_claim_known = refl

vm_claim_no_container : class_named vm_claim (bytes "a") device_class_container ≡ false
unfolding names_class device_class_for_request bytes text_beq device_class_vm device_class_container
vm_claim_no_container = refl

vm_claim_vm : class_named vm_claim (bytes "a") device_class_vm ≡ true
unfolding names_class device_class_for_request bytes text_beq device_class_vm device_class_container
vm_claim_vm = refl

abbrev wide_config : CryptoConfig
wide_config = record {
  kind = kind_value;
  api_version = api_version_value;
  control_domain_mode = all_control_domains;
}

resolves :
    resolve env.decode state.driver_name
      (some (record { driver = bytes "cex.ibm.com"; raw = bytes "all" }) ∷ [])
    ≡ ok wide_config
unfolding resolve parse merge bytes text_beq kind_value api_version_value all_control_domains
resolves = refl

mode_is_refused :
    validate_control_domain_mode all_control_domains ≡ err (mode_not_enabled all_control_domains)
unfolding validate_control_domain_mode bytes text_beq usage_only usage_and_control
    all_control_domains
mode_is_refused = refl

is_refused :
    refusal env state wide_claim (record {
      results = given;
      config = some (record { driver = bytes "cex.ibm.com"; raw = bytes "all" }) ∷ [];
    })
    ≡ some (control_domain_mode (mode_not_enabled all_control_domains))
is_refused = ground (arith, vm_claim_vm, vm_claim_no_container, resolves, mode_is_refused)

prepare_refused_example :
    prepare node_os env state wide_claim bus
    ≡ (err (control_domain_mode (mode_not_enabled all_control_domains)), bus)
prepare_refused_example =
    prepare_refused node_os env state wide_claim refl vm_claim_known bus
      (control_domain_mode (mode_not_enabled all_control_domains)) refl is_refused
