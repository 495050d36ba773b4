-- ===== src/Tests/Guests.antt =====
-- A VM claim on a host without an mdev: prepared, prepared again, and unprepared.
use k8s_cex_dra_driver.Prelude.Int.{atoi}
use k8s_cex_dra_driver.Metadata.{generate_claim_metadata, delete_claim_metadata, claim_dir}
use k8s_cex_dra_driver.DeviceState.Build.{ensure_mdev}
use k8s_cex_dra_driver.CryptoConfig.ControlDomain.{validate_control_domain_mode}
use k8s_cex_dra_driver.Binding.{
  device_unbind_path, drivers_probe_path, switch_to_vfio_ap, driver_override_path,
}
use k8s_cex_dra_driver.ApScanner.Queue.{base}
use k8s_cex_dra_driver.Prelude.{
  ℕ, map, false, Text, List, [], ◌∷◌, true, false, none, some, ◌≡◌, refl, sym, ◌∙◌, text_eq,
  text_beq, contains, insert, All,
}
use k8s_cex_dra_driver.Prelude.Exec.{ok, Exec}
use k8s_cex_dra_driver.Prelude.Dict.{get, put}
use k8s_cex_dra_driver.Prelude.Strings.{bytes}
use k8s_cex_dra_driver.Mdev.{
  Apqn, apqn_eq, mdev_create_path, assign_domain, attribute_path, assign_control_domain,
  assign_adapter, destroy, vfio_ap_matrix_path, create, exists, read_matrix,
}
use k8s_cex_dra_driver.Resource.{DriverResources, ResourceClaim}
use k8s_cex_dra_driver.CryptoConfig.{defaults, usage_only, resolve, usage_and_control}
use k8s_cex_dra_driver.DeviceState.Env.{Env}
use k8s_cex_dra_driver.DeviceState.Allocation.{
  Classes, device_class_vm, binding_mode, apqi_name, queue_of_device, collect_allocated_apqns,
  group_results_by_request, devices_from_results, apid_name,
}
use k8s_cex_dra_driver.DeviceState.Prepare.{prepare, claim_params, admit}
use k8s_cex_dra_driver.DeviceState.Prepare.Guest.{prepare_twice}
use k8s_cex_dra_driver.DeviceState.Unprepare.{unprepare}
use k8s_cex_dra_driver.DeviceState.Matrix.{allocates, queue_named}
use k8s_cex_dra_driver.Driver.{
  claim_device, prepare_resource_claims, unprepare_resource_claims, run_scan_cycle,
}
use k8s_cex_dra_driver.Driver.Loop.{Site, site, tick, unprepared, Reach, here, next}
use k8s_cex_dra_driver.Driver.Calls.{IsOther}
use k8s_cex_dra_driver.Driver.Guests.{Spares, AllSpare, prepared_kept, unprepared_kept}
use k8s_cex_dra_driver.Cdi.{spec_path, generate_claim_spec, delete_claim_spec}
use k8s_cex_dra_driver.DeviceState.Prepare.Effects.{IsVm}
use k8s_cex_dra_driver.Sample.Host.{Host, host_os, host, content, found, write}
use k8s_cex_dra_driver.Sample.Claim.{
  rescanned_state, named_again, named, plain_env, state, allocation, vm_claim, prepared_devices,
  numbers, driver, digest, second,
}

abbrev claim : ResourceClaim
claim = vm_claim

abbrev env : Env host_os
env = plain_env host_os

abbrev empty : Host
empty uuid = none

abbrev prepared : Host
prepared = (prepare host_os env state claim empty).1

prepares : (prepare host_os env state claim empty).0 ≡ ok prepared_devices
unfolding prepare binding_mode text_beq bytes device_class_vm resolve validate_control_domain_mode
    usage_and_control usage_only collect_allocated_apqns get apid_name apqi_name insert ensure_mdev
    exists found vfio_ap_matrix_path switch_to_vfio_ap write driver_override_path device_unbind_path
    drivers_probe_path create mdev_create_path assign_adapter attribute_path assign_domain
    assign_control_domain generate_claim_metadata claim_params group_results_by_request put
    claim_dir generate_claim_spec atoi base spec_path devices_from_results
prepares = refl

abbrev vm_only : Classes
vm_only = record { has_vm = true; has_container = false }

claim-IsVm : IsVm host_os env state claim (allocation (bytes "a") []) vm_only defaults
unfolding allocates text_beq bytes queue_named get queue_of_device apid_name apqi_name admit
    binding_mode device_class_vm resolve
claim-IsVm = (refl, refl, refl)

second_named :
    allocates state.driver_name state.allocatable (allocation (bytes "a") []).results second ≡ true
unfolding allocates text_beq bytes queue_named get queue_of_device apid_name apqi_name
second_named = refl

visits :
    (w : host_os.World) (texts : List Text) (t : Text)
    → contains (env.range_texts w texts) t ≡ contains texts t
visits w texts t = refl

prepare_twice_example :
    host.guest (prepare host_os env rescanned_state claim prepared).1 ≡ host.guest prepared
prepare_twice_example =
    prepare_twice host_os host env state claim visits (allocation (bytes "a") []) vm_only defaults
      claim-IsVm second second_named numbers host.guest host.apart rescanned_state empty prepared
      prepared_devices prepares refl (λ q. named_again q ∙ sym (named q))

abbrev publish : DriverResources → Exec Host (Unit {0}) (Unit {0})
publish resources h = (ok tt, h)

abbrev clock : Host → ℕ
clock h = 7

published :
    (resources : DriverResources) (h : Host) → host.guest (publish resources h).1 ≡ host.guest h
published resources h = refl

-- A claim that is not allocated, which the same call names
abbrev stray : ResourceClaim
stray = record claim { uid = bytes "77"; allocation = none }

stray-IsOther : All (IsOther claim.uid) (stray ∷ [])
unfolding text_beq bytes
stray-IsOther = (refl, tt)

-- The driver after that call
abbrev called : Site host_os env digest publish clock
called =
    site host_os env digest publish clock
      (prepare_resource_claims host_os env driver (claim ∷ stray ∷ []) empty)

answered :
    get claim.uid (prepare_resource_claims host_os env driver (claim ∷ stray ∷ []) empty).0
    ≡ some (ok (map claim_device prepared_devices))
unfolding prepare_resource_claims get put text_beq bytes
answered = rw prepares refl

-- A scan cycle, and a call for a claim that is gone
abbrev scanned : Site host_os env digest publish clock
scanned = run_scan_cycle host_os digest publish clock called.0 called.1

abbrev later : Site host_os env digest publish clock
later =
    site host_os env digest publish clock
      (unprepare_resource_claims host_os env scanned.0 (bytes "gone" ∷ []) scanned.1)

abbrev steps : Reach host_os env digest publish clock called later
steps =
    next (next here (tick called.0 called.1)) (unprepared scanned.0 scanned.1 (bytes "gone" ∷ []))

steps-AllSpare : AllSpare host_os host env visits claim.uid digest publish clock published steps
unfolding AllSpare Spares text_beq bytes
steps-AllSpare = ((tt, tt), (refl, tt))

prepared_kept_example :
    ((host.guest later.1 claim.uid).present ≡ true)
    × ((q : Apqn)
        → contains (host.guest later.1 claim.uid).rows q
          ≡ allocates state.driver_name state.allocatable (allocation (bytes "a") []).results q)
prepared_kept_example =
    prepared_kept host_os host env visits digest publish clock published driver empty []
      (stray ∷ []) claim (map claim_device prepared_devices) (allocation (bytes "a") []) vm_only
      defaults second later steps claim-IsVm second_named numbers stray-IsOther answered
      steps-AllSpare

-- A host that holds an mdev under every UUID
abbrev held : Host
held uuid = some (record { adapters = bytes "02" ∷ []; domains = bytes "0008" ∷ [] })

unprepares : (unprepare host_os env state claim.uid held).0 ≡ ok tt
unfolding unprepare delete_claim_spec destroy found vfio_ap_matrix_path delete_claim_metadata
    read_matrix content attribute_path write
unprepares = refl

abbrev released : Site host_os env digest publish clock
released =
    site host_os env digest publish clock
      (unprepare_resource_claims host_os env driver (claim.uid ∷ []) held)

unprepare_answered :
    get claim.uid (unprepare_resource_claims host_os env driver (claim.uid ∷ []) held).0
    ≡ some (ok tt)
unfolding unprepare_resource_claims get put text_beq bytes
unprepare_answered = rw unprepares refl

abbrev rescanned : Site host_os env digest publish clock
rescanned = run_scan_cycle host_os digest publish clock released.0 released.1

rescan-AllSpare :
    AllSpare host_os host env visits claim.uid digest publish clock published
      (next here (tick released.0 released.1))
unfolding AllSpare Spares
rescan-AllSpare = (tt, tt)

unprepared_kept_example : (host.guest rescanned.1 claim.uid).present ≡ false
unprepared_kept_example =
    unprepared_kept host_os host env visits digest publish clock published driver held [] []
      claim.uid rescanned (next here (tick released.0 released.1)) tt unprepare_answered
      rescan-AllSpare
