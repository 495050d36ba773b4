-- ===== src/DeviceState/Prepare/Gates.antt =====
-- What `Prepare` rejects before it touches the node.
use k8s_cex_dra_driver.Prelude.{
  Text, List, [], ◌∷◌, Bool, true, false, not, ◌&&◌, ◌||◌, Option, none, some, ◌≡◌, refl, ◌==◌,
  text_eq, text_beq, text_beq_iff, arith, if◌then◌else◌,
}
use k8s_cex_dra_driver.Prelude.Exec.{Result, ok, err}
use k8s_cex_dra_driver.Prelude.Strings.{bytes}
use k8s_cex_dra_driver.Os.{Os}
use k8s_cex_dra_driver.Resource.{
  Allocation, AllocationResult, DeviceRequest, ResourceClaim, PreparedDevice,
}
use k8s_cex_dra_driver.CryptoConfig.{CryptoConfig, ResolveError, resolve}
use k8s_cex_dra_driver.CryptoConfig.ControlDomain.{ModeError, validate_control_domain_mode}
use k8s_cex_dra_driver.DeviceState.{DeviceState}
use k8s_cex_dra_driver.DeviceState.Env.{Env}
use k8s_cex_dra_driver.DeviceState.Allocation.{
  Classes, PrepareError, mixed_classes, container_gate, virtual_machine_gate, resolve_config,
  control_domain_mode, device_class_vm, device_class_container, device_class_for_request,
  binding_mode,
}
use k8s_cex_dra_driver.DeviceState.Prepare.{no_class, prepare}

classes_apart : text_beq device_class_container device_class_vm ≡ false
unfolding text_beq bytes device_class_container device_class_vm
classes_apart = refl

abbrev is_class : Option Text → Text → Bool
is_class none class_name = false
is_class (some c) class_name = c == class_name

module _ (driver_name : Text) (requests : List DeviceRequest) where
  -- The device class of a result, by the request that it answers.
  abbrev pub class_of : AllocationResult → Option Text
  class_of r = device_class_for_request requests r.request

  -- Some result of this driver has the device class.
  unfoldable pub names_class : Text → List AllocationResult → Bool
  names_class class_name [] = false
  names_class class_name (r ∷ results) =
      (r.driver == driver_name && is_class (class_of r) class_name)
      || names_class class_name results

  -- Every result of this driver has one of the two classes.
  unfoldable pub all_known : List AllocationResult → Bool
  all_known [] = true
  all_known (r ∷ results) =
      (not (r.driver == driver_name)
        || (is_class (class_of r) device_class_vm || is_class (class_of r) device_class_container))
      && all_known results

  binding_mode_known :
      (results : List AllocationResult) (seen : Classes)
      → all_known results ≡ true
      → binding_mode driver_name requests results seen
        ≡ ok (record {
          has_vm = seen.has_vm || names_class device_class_vm results;
          has_container = seen.has_container || names_class device_class_container results;
        })
  unfolding binding_mode names_class all_known
  binding_mode_known [] seen h = ground arith
  binding_mode_known (r ∷ results) seen h =
      go (binding_mode_known results) (device_class_for_request requests r.request) refl
    where
      go :
          ((seen' : Classes)
            → all_known results ≡ true
            → binding_mode driver_name requests results seen'
              ≡ ok (record {
                has_vm = seen'.has_vm || names_class device_class_vm results;
                has_container = seen'.has_container || names_class device_class_container results;
              }))
          → (o : Option Text) → device_class_for_request requests r.request ≡ o
          → binding_mode driver_name requests (r ∷ results) seen
            ≡ ok (record {
              has_vm = seen.has_vm || names_class device_class_vm (r ∷ results);
              has_container =
                  seen.has_container || names_class device_class_container (r ∷ results);
            })
      go ih none e = ground (arith, ih seen)
      go ih (some c) e = ground (
        arith,
        ih seen,
        ih (record seen { has_vm = true }),
        ih (record seen { has_container = true }),
        classes_apart,
        text_beq_iff c device_class_vm,
        text_beq_iff c device_class_container,
        text_beq_iff device_class_container device_class_vm,
      )

module _ {os : Os} (env : Env os) (s : DeviceState) (claim : ResourceClaim) (a : Allocation) where
  abbrev given_names : Text → Bool
  given_names class_name = names_class s.driver_name claim.requests class_name a.results

  abbrev mode_refusal : Result ModeError (Unit {0}) → Option PrepareError
  mode_refusal (err e) = some (control_domain_mode e)
  mode_refusal (ok _) = none

  abbrev config_refusal : Bool → Result ResolveError CryptoConfig → Option PrepareError
  config_refusal vm (err e) = some (resolve_config e)
  config_refusal vm (ok cfg) =
      if vm then mode_refusal (validate_control_domain_mode cfg.control_domain_mode) else none

  -- Why a claim is refused for its classes, the gates, or its configuration, whichever comes first.
  abbrev pub refusal : Option PrepareError
  refusal =
      if given_names device_class_vm && given_names device_class_container
      then some mixed_classes
      else if given_names device_class_container && not env.container_workload
      then some container_gate
      else if given_names device_class_vm && not env.virtual_machine_workload
      then some virtual_machine_gate
      else config_refusal (given_names device_class_vm) (resolve env.decode s.driver_name a.config)

module _ (os : Os) (env : Env os) (s : DeviceState) (claim : ResourceClaim) {a : Allocation}
    (allocated : claim.allocation ≡ some a)
    (known : all_known s.driver_name claim.requests a.results ≡ true) where
  abbrev names : Text → Bool
  names class_name = names_class s.driver_name claim.requests class_name a.results

  classes :
      binding_mode s.driver_name claim.requests a.results no_class
      ≡ ok (record { has_vm = names device_class_vm; has_container = names device_class_container })
  classes = binding_mode_known s.driver_name claim.requests a.results no_class known

  -- A claim of a container class leaves the node as it was, whether it is refused or prepared. It is
  -- prepared only with the ContainerWorkload gate on, and only if it names no VM class besides.
  pub prepare_container :
      (w : os.World)
      → names device_class_container ≡ true
      → ((prepare os env s claim w).1 ≡ w)
        × ((devices : List PreparedDevice)
            → (prepare os env s claim w).0 ≡ ok devices
            → (env.container_workload ≡ true) × (names device_class_vm ≡ false))
  unfolding prepare
  prepare_container w c = (ground (arith, classes), λ devices h. ground (arith, classes))

  -- A claim whose results of this driver all have one of the two classes, and which mixes them, lacks
  -- the gate of its class, or is a VM claim with a configuration or control-domain mode that the driver
  -- does not serve, or any claim with a configuration that does not resolve, is refused for the first of
  -- these that applies before anything on the node changes, unless its context ended before it had the
  -- lock.
  pub prepare_refused :
      (w : os.World) (e : PrepareError)
      → (env.ended w || env.gave_up w) ≡ false
      → refusal env s claim a ≡ some e
      → prepare os env s claim w ≡ (err e, w)
  unfolding prepare
  prepare_refused w e free h = ground (arith, classes)
