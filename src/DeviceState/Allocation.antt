-- ===== src/DeviceState/Allocation.antt =====
-- The parts of internal/devicestate/state.go that read a claim's allocation.
use k8s_cex_dra_driver.Prelude.{
  ℕ, ◌*◌, Text, List, [], ◌∷◌, ◌++◌, Bool, true, not, ◌&&◌, Option, none, some, ◌==◌, text_eq,
  nat_beq, length, insert, if◌then◌else◌,
}
use k8s_cex_dra_driver.Prelude.Exec.{Result, ok, err}
use k8s_cex_dra_driver.Prelude.Dict.{Dict, get, put, or_default}
use k8s_cex_dra_driver.Prelude.Strings.{bytes}
use k8s_cex_dra_driver.Mdev.{Apqn, apqn_eq, MdevError, MatrixError}
use k8s_cex_dra_driver.Binding.{SwitchError}
use k8s_cex_dra_driver.Resource.{Device, AllocationResult, DeviceRequest, PreparedDevice}
use k8s_cex_dra_driver.CryptoConfig.{ResolveError}
use k8s_cex_dra_driver.CryptoConfig.ControlDomain.{ModeError}
use k8s_cex_dra_driver.Metadata.{DeviceInfo, MetadataError}
use k8s_cex_dra_driver.Cdi.{CdiError}

-- The errors of `Prepare`, each with what it wraps.
pub data PrepareError : Type 0 where
  lock_wait not_allocated mixed_classes container_gate virtual_machine_gate : PrepareError
  no_request unknown_class : Text → PrepareError
  resolve_config : ResolveError → PrepareError
  control_domain_mode : ModeError → PrepareError
  not_allocatable missing_attributes : Text → PrepareError
  matrix_constraint : ℕ → ℕ → ℕ → PrepareError
  read_existing : MatrixError → PrepareError
  destroy_partial create_mdev assign : MdevError → PrepareError
  context_ended : PrepareError
  switch_queue : Apqn → SwitchError → PrepareError
  generate_metadata : MetadataError → PrepareError
  generate_spec : CdiError → PrepareError

unfoldable pub device_class_vm : Text
device_class_vm = bytes "ap-queue.virtual-machine.ibm.com"

unfoldable pub device_class_container : Text
device_class_container = bytes "ap-queue.container.ibm.com"

unfoldable pub string_attribute : Device → Text → Option Text
string_attribute device name = elim (get name device.attributes) [
  | none ↦ none
  | some a ↦ a.string_value
]

-- The first request of that name with an `Exactly` clause.
unfoldable pub device_class_for_request : List DeviceRequest → Text → Option Text
device_class_for_request [] request_name = none
device_class_for_request (r ∷ requests) request_name =
    let rest = device_class_for_request requests request_name in
    if r.name == request_name
    then elim r.exactly [ none ↦ rest | some class_name ↦ some class_name ]
    else rest

-- Which classes the driver's results name.
pub record Classes : Type 0 where
  pub has_vm : Bool
  pub has_container : Bool

abbrev class_kind : Text → Classes → Option Classes
class_kind class_name seen =
    if class_name == device_class_vm
    then some (record seen { has_vm = true })
    else if class_name == device_class_container
    then some (record seen { has_container = true })
    else none

unfoldable pub add_class : List DeviceRequest → Text → Classes → Result PrepareError Classes
unfolding device_class_for_request
add_class requests request seen = elim (device_class_for_request requests request) [
  | none ↦ err (no_request request)
  | some class_name ↦ elim (class_kind class_name seen) [
    | none ↦ err (unknown_class class_name)
    | some seen' ↦ ok seen'
  ]
]

unfoldable pub binding_mode :
    Text → List DeviceRequest → List AllocationResult → Classes → Result PrepareError Classes
unfolding add_class
binding_mode driver_name requests [] seen = ok seen
binding_mode driver_name requests (r ∷ results) seen =
    elim (if not (r.driver == driver_name) then ok seen else add_class requests r.request seen) [
      | err e ↦ err e
      | ok seen' ↦ binding_mode driver_name requests results seen'
    ]

-- The adapter, domain and queue sets of a claim.
pub record Collected : Type 0 where
  pub adapters : List Text
  pub domains : List Text
  pub allocated : List Apqn

abbrev pub nothing_collected : Collected
nothing_collected = record { adapters = []; domains = []; allocated = [] }

unfoldable pub apid_name : Text
apid_name = bytes "cex.ibm.com/apid"

unfoldable pub apqi_name : Text
apqi_name = bytes "cex.ibm.com/apqi"

abbrev pub add_queue : Text → Text → Collected → Collected
add_queue apid apqi c = record {
  adapters = insert apid c.adapters;
  domains = insert apqi c.domains;
  allocated = insert (record { apid = apid; apqi = apqi }) c.allocated;
}

-- `!apidOK || apid == "" || !apqiOK || apqi == ""`
abbrev both_set : Option Text → Option Text → Option (Text × Text)
both_set (some apid) (some apqi) =
    if not (apid == []) && not (apqi == []) then some (apid, apqi) else none
both_set _ _ = none

unfoldable pub queue_of_device : Device → Option (Text × Text)
unfolding string_attribute
queue_of_device device =
    both_set (string_attribute device apid_name) (string_attribute device apqi_name)

unfoldable pub collect_result : Dict Text Device → Text → Collected → Result PrepareError Collected
unfolding queue_of_device
collect_result allocatable name c = elim (get name allocatable) [
  | none ↦ err (not_allocatable name)
  | some device ↦ elim (queue_of_device device) [
    | none ↦ err (missing_attributes name)
    | some (apid, apqi) ↦ ok (add_queue apid apqi c)
  ]
]

unfoldable pub collect_results :
    Text → Dict Text Device → List AllocationResult → Collected → Result PrepareError Collected
unfolding collect_result
collect_results driver_name allocatable [] c = ok c
collect_results driver_name allocatable (r ∷ results) c =
    elim (if not (r.driver == driver_name) then ok c else collect_result allocatable r.device c) [
      | err e ↦ err e
      | ok c' ↦ collect_results driver_name allocatable results c'
    ]

-- The constraint at the end: the cross product holds no queue that was not allocated.
abbrev pub check_matrix : Collected → Result PrepareError Collected
check_matrix c =
    if not (nat_beq (length c.adapters * length c.domains) (length c.allocated))
    then err (matrix_constraint (length c.adapters) (length c.domains) (length c.allocated))
    else ok c

unfoldable pub collect_allocated_apqns :
    Text → Dict Text Device → List AllocationResult → Result PrepareError Collected
unfolding collect_results
collect_allocated_apqns driver_name allocatable results =
    elim (collect_results driver_name allocatable results nothing_collected) [
      | err e ↦ err e
      | ok c ↦ check_matrix c
    ]

unfoldable pub devices_from_results :
    Text
    → Dict Text Device
    → List Text
    → List AllocationResult
    → List PreparedDevice
    → Result PrepareError (List PreparedDevice)
devices_from_results driver_name allocatable ids [] devices = ok devices
devices_from_results driver_name allocatable ids (r ∷ results) devices =
    let skipped = devices_from_results driver_name allocatable ids results devices in
    if not (r.driver == driver_name) then skipped else elim (get r.device allocatable) [
      | none ↦ err (not_allocatable r.device)
      | some _ ↦ devices_from_results driver_name allocatable ids results (
          devices
          ++ (record {
            request_names = r.request ∷ [];
            pool_name = r.pool;
            device_name = r.device;
            cdi_device_ids = ids;
          }
              ∷ []))
    ]

unfoldable pub group_results_by_request :
    Text → List AllocationResult → Dict Text (List DeviceInfo) → Dict Text (List DeviceInfo)
group_results_by_request driver_name [] groups = groups
group_results_by_request driver_name (r ∷ results) groups =
    group_results_by_request driver_name results (
      if not (r.driver == driver_name)
      then groups
      else put r.request
          (or_default [] (get r.request groups)
            ++ (record { driver = r.driver; pool = r.pool; name = r.device } ∷ []))
          groups)
