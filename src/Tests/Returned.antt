-- ===== src/Tests/Returned.antt =====
-- A VM claim that is prepared and released on a machine with two queues.
use k8s_cex_dra_driver.Prelude.Int.{atoi}
use k8s_cex_dra_driver.Metadata.{claim_dir, delete_claim_metadata, generate_claim_metadata}
use k8s_cex_dra_driver.DeviceState.Hash.{compute_devices_hash}
use k8s_cex_dra_driver.DeviceState.Build.{ensure_mdev}
use k8s_cex_dra_driver.DeviceState.{compare_and_update}
use k8s_cex_dra_driver.CryptoConfig.ControlDomain.{validate_control_domain_mode}
use k8s_cex_dra_driver.Cdi.{spec_path, generate_claim_spec, delete_claim_spec}
use k8s_cex_dra_driver.Binding.{
  switch_to_vfio_ap, drivers_probe_path, device_unbind_path, driver_override_path,
}
use k8s_cex_dra_driver.ApScanner.Queue.{base}
use k8s_cex_dra_driver.ApScanner.{scan, is_card_name}
use k8s_cex_dra_driver.Prelude.{
  ℕ, map, Text, List, [], ◌∷◌, true, false, none, some, ◌≡◌, ◌⊎◌, refl, text_eq, text_beq, contains,
  insert,
}
use k8s_cex_dra_driver.Prelude.Exec.{ok, Exec}
use k8s_cex_dra_driver.Prelude.Dict.{get, put}
use k8s_cex_dra_driver.Prelude.Strings.{bytes, has_prefix}
use k8s_cex_dra_driver.Mdev
use k8s_cex_dra_driver.Mdev.{Apqn, apqn_eq, attribute_path, vfio_ap_matrix_path}
use k8s_cex_dra_driver.Resource.{Allocation, DriverResources}
use k8s_cex_dra_driver.CryptoConfig.{defaults, usage_only, resolve, usage_and_control}
use k8s_cex_dra_driver.DeviceState.Env.{Env}
use k8s_cex_dra_driver.DeviceState.Allocation.{
  Classes, apid_name, binding_mode, apqi_name, collect_allocated_apqns, device_class_vm,
  group_results_by_request, devices_from_results,
}
use k8s_cex_dra_driver.DeviceState.Matrix.{allocates}
use k8s_cex_dra_driver.DeviceState.Prepare.{prepare, admit, claim_params}
use k8s_cex_dra_driver.DeviceState.Prepare.Effects.{IsVm}
use k8s_cex_dra_driver.DeviceState.Rollback.{id_of, IsPassedThrough}
use k8s_cex_dra_driver.DeviceState.Prepare.Queues.{prepare-IsPassedThrough}
use k8s_cex_dra_driver.DeviceState.Unprepare.{unprepare}
use k8s_cex_dra_driver.DeviceState.Unprepare.Steps.{destroyed}
use k8s_cex_dra_driver.DeviceState.Unprepare.Returned.{unreturned, IsReturned}
use k8s_cex_dra_driver.Driver.{
  claim_device, prepare_resource_claims, unprepare_resource_claim, run_scan_cycle,
}
use k8s_cex_dra_driver.Driver.Loop.{Site, site, tick, Reach, here, next}
use k8s_cex_dra_driver.Driver.Guests.{Spares, AllSpare}
use k8s_cex_dra_driver.Driver.Released.{allocated_queue-IsReturned}
use k8s_cex_dra_driver.Sample.Node
use k8s_cex_dra_driver.Sample.Node.{bus}
use k8s_cex_dra_driver.Sample.Host
use k8s_cex_dra_driver.Sample.Host.{Assigned, found, content}
use k8s_cex_dra_driver.Sample.Machine.{
  Machine, machine_os, machine_guests, machine_readable, read, write,
}
use k8s_cex_dra_driver.Sample.Machine.Queues.{machine_kernel}
use k8s_cex_dra_driver.Sample.Claim.{
  plain_env, state, allocation, vm_claim, prepared_devices, second, named, numbers, driver, digest,
}

abbrev env : Env machine_os
env = plain_env machine_os

abbrev given : Allocation
given = allocation (bytes "a") []

-- No mdev, and two queues on zcrypt
abbrev start : Machine
start = (λ uuid. none, bus)

prepares : (prepare machine_os env state vm_claim start).0 ≡ ok prepared_devices
unfolding binding_mode text_beq bytes device_class_vm resolve validate_control_domain_mode
    usage_and_control usage_only collect_allocated_apqns get apid_name apqi_name insert ensure_mdev
    Mdev.exists vfio_ap_matrix_path switch_to_vfio_ap driver_override_path device_unbind_path
    drivers_probe_path Mdev.create Mdev.mdev_create_path Mdev.assign_adapter attribute_path
    Mdev.assign_domain Mdev.assign_control_domain generate_claim_metadata claim_params
    group_results_by_request put claim_dir generate_claim_spec atoi base spec_path
    devices_from_results prepare found Host.write Node.write write
prepares = refl

visits :
    (w : machine_os.World) (texts : List Text) (t : Text)
    → contains (env.range_texts w texts) t ≡ contains texts t
visits w texts t = refl

visits_apqns :
    (w : machine_os.World) (queues : List Apqn) (q : Apqn)
    → contains (env.range_apqns w queues) q ≡ contains queues q
visits_apqns w queues q = refl

abbrev publish : DriverResources → Exec Machine (Unit {0}) (Unit {0})
publish resources m = (ok tt, m)

abbrev clock : Machine → ℕ
clock m = 7

published :
    (resources : DriverResources) (m : Machine)
    → machine_guests.guest (publish resources m).1 ≡ machine_guests.guest m
published resources m = refl

abbrev called : Site machine_os env digest publish clock
called =
    site machine_os env digest publish clock
      (prepare_resource_claims machine_os env driver (vm_claim ∷ []) start)

answered :
    get vm_claim.uid (prepare_resource_claims machine_os env driver (vm_claim ∷ []) start).0
    ≡ some (ok (map claim_device prepared_devices))
unfolding prepare_resource_claims get put text_beq bytes
answered = rw prepares refl

abbrev scanned : Site machine_os env digest publish clock
scanned = run_scan_cycle machine_os digest publish clock called.0 called.1

abbrev steps : Reach machine_os env digest publish clock called scanned
steps = next here (tick called.0 called.1)

steps-AllSpare :
    AllSpare machine_os machine_guests env visits vm_claim.uid digest publish clock published steps
unfolding AllSpare Spares
steps-AllSpare = (tt, tt)

releases :
    (unprepare_resource_claim machine_os env scanned.0.state vm_claim.uid scanned.1).0 ≡ ok tt
unfolding run_scan_cycle unprepare_resource_claim prepare_resource_claims scan is_card_name
    has_prefix binding_mode text_beq bytes device_class_vm resolve validate_control_domain_mode
    usage_and_control usage_only collect_allocated_apqns get apid_name apqi_name insert ensure_mdev
    Mdev.exists vfio_ap_matrix_path switch_to_vfio_ap driver_override_path device_unbind_path
    drivers_probe_path Mdev.create Mdev.mdev_create_path Mdev.assign_adapter attribute_path
    Mdev.assign_domain Mdev.assign_control_domain generate_claim_metadata claim_params
    group_results_by_request put claim_dir generate_claim_spec atoi base spec_path
    devices_from_results prepare found Host.write Node.write write unprepare content read
    delete_claim_spec Mdev.destroy delete_claim_metadata Mdev.read_matrix Node.read
    compare_and_update compute_devices_hash
releases = refl

abbrev vm_only : Classes
vm_only = record { has_vm = true; has_container = false }

claim-IsVm : IsVm machine_os env state vm_claim given vm_only defaults
unfolding admit binding_mode text_beq bytes device_class_vm resolve
claim-IsVm = (refl, refl, refl)

second_named : allocates state.driver_name state.allocatable given.results second ≡ true
unfolding bytes text_beq
second_named = named second

allocated_queue-IsReturned_example :
    (contains
        (unreturned machine_os machine_kernel env
          (machine_guests.guest scanned.1 vm_claim.uid).rows
          (destroyed machine_os env scanned.0.state vm_claim.uid scanned.1))
        (id_of second)
      ≡ true)
    ⊎ IsReturned machine_os machine_kernel env
        (id_of second)
        (unprepare_resource_claim machine_os env scanned.0.state vm_claim.uid scanned.1).1
allocated_queue-IsReturned_example =
    allocated_queue-IsReturned machine_os machine_guests machine_kernel env visits digest publish
      clock published driver start [] [] vm_claim (map claim_device prepared_devices) given vm_only
      defaults second scanned steps claim-IsVm numbers tt answered steps-AllSpare
      (machine_readable vm_claim.uid) releases second_named

prepare-IsPassedThrough_example :
    (((machine_guests.guest start vm_claim.uid).present ≡ true)
      × ((p : Apqn)
          → contains (machine_guests.guest start vm_claim.uid).rows p
            ≡ allocates state.driver_name state.allocatable given.results p))
    ⊎ IsPassedThrough machine_os machine_kernel env
        (id_of second)
        (prepare machine_os env state vm_claim start).1
prepare-IsPassedThrough_example =
    prepare-IsPassedThrough machine_os machine_guests machine_kernel env state vm_claim visits_apqns
      visits given vm_only defaults start prepared_devices second claim-IsVm second_named prepares
