-- ===== src/Tests/Bus.antt =====
-- The switches and the drain on a small node.
use k8s_cex_dra_driver.Prelude.{
  Text, List, [], ◌∷◌, Bool, true, false, none, some, subst, ◌≡◌, refl, ◌⊎◌, ◌==◌, text_eq,
  contains, insert, text_beq, All,
}
use k8s_cex_dra_driver.Prelude.Exec.{ok, err, is_ok}
use k8s_cex_dra_driver.Prelude.Strings.{
  bytes, trim_space, trim_left, trim_right, is_space, cut, split,
}
use k8s_cex_dra_driver.Os.{failed}
use k8s_cex_dra_driver.Mdev.{
  Apqn, apqn_eq, MatrixError, matrix_io, read_matrix, parse_matrix, parse_lines, attribute_path,
  vfio_ap_matrix_path,
}
use k8s_cex_dra_driver.Mdev.Matrix.{IsHex, print_matrix, parse_matrix-print_matrix}
use k8s_cex_dra_driver.Binding.{
  vfio_ap, queue_id, driver_override_path, switch_to_vfio_ap, switch_to_zcrypt, clear_override,
  unbind_queue, device_unbind_path, drivers_probe_path, log_override, probe_or_restore, newline,
}
use k8s_cex_dra_driver.Binding.Kernel.{is_tracked, SameQueue}
use k8s_cex_dra_driver.Binding.Switch.{switch_to_vfio_ap-is_tracked, switch_to_zcrypt_err, probed}
use k8s_cex_dra_driver.Binding.Recovery.{
  live_of_entries, insert_all, base_of_dir, live_apqns, drain_orphaned_vfio_ap,
  parse_apqn_from_override_path,
}
use k8s_cex_dra_driver.Binding.Recovery.Unreadable.{drain_of_unreadable_mdev}
use k8s_cex_dra_driver.Driver.Start.{Config, reconcile}
use k8s_cex_dra_driver.Driver.Reconcile.{reconcile_spares_live}
use k8s_cex_dra_driver.Sample.Node.{
  node_os, node_kernel, bus, locked_bus, unreadable_bus, write, read, queue_file,
}

abbrev two_queues : List Apqn
two_queues =
    record { apid = bytes "02"; apqi = bytes "0008" }
    ∷ record { apid = bytes "1f"; apqi = bytes "00ab" }
    ∷ []

two_queues-IsHex : All IsHex two_queues
unfolding bytes k8s_cex_dra_driver.Prelude.Strings.all k8s_cex_dra_driver.Mdev.Matrix.is_hex_digit
two_queues-IsHex =
    (record { apid_hex = refl; apqi_hex = refl }, (record { apid_hex = refl; apqi_hex = refl }, tt))

parse_matrix-print_matrix_example : parse_matrix (print_matrix two_queues) ≡ ok two_queues
parse_matrix-print_matrix_example = parse_matrix-print_matrix two_queues two_queues-IsHex

abbrev adapter : Text
adapter = bytes "02"

abbrev domain : Text
domain = bytes "0008"

abbrev name : Text
name = queue_id adapter domain

has_driver : is_tracked node_os node_kernel bus name ≡ true
unfolding is_tracked bytes text_beq vfio_ap node_kernel
has_driver = refl

switch_to_vfio_ap-is_tracked_example :
    is_tracked node_os node_kernel (switch_to_vfio_ap node_os adapter domain bus).1 name ≡ true
switch_to_vfio_ap-is_tracked_example =
    switch_to_vfio_ap-is_tracked node_os node_kernel adapter domain bus name has_driver

-- The queue that is handed to vfio-ap.
abbrev passed : Apqn
passed = record { apid = bytes "03"; apqi = bytes "0042" }

abbrev passed_name : Text
passed_name = queue_id passed.apid passed.apqi

marked : node_kernel.override locked_bus passed_name ≡ vfio_ap
unfolding bytes text_beq node_kernel
marked = refl

back_fails :
    (switch_to_zcrypt node_os false passed.apid passed.apqi locked_bus).0
    ≡ err (clear_override failed)
unfolding switch_to_zcrypt unbind_queue log_override probe_or_restore write read bytes text_beq
    vfio_ap newline driver_override_path device_unbind_path drivers_probe_path
back_fails = refl

switch_to_zcrypt_err_example :
    (node_kernel.override
        (switch_to_zcrypt node_os false passed.apid passed.apqi locked_bus).1
        passed_name
      ≡ vfio_ap)
    ⊎ (is_ok
          (node_os.write_file
            (driver_override_path passed.apid passed.apqi)
            vfio_ap
            (probed node_os node_kernel passed.apid passed.apqi false locked_bus)).0
        ≡ false)
switch_to_zcrypt_err_example =
    switch_to_zcrypt_err node_os node_kernel passed.apid passed.apqi false locked_bus marked
      back_fails

abbrev claimed : List Apqn
claimed = passed ∷ []

live_on_bus : (live_apqns node_os bus).0 ≡ ok claimed
unfolding live_apqns live_of_entries insert_all insert contains read_matrix parse_matrix parse_lines
    read bytes text_beq attribute_path vfio_ap_matrix_path split trim_space trim_left trim_right
    is_space cut
live_on_bus = refl

passed_is_claimed : contains claimed passed ≡ true
unfolding contains bytes text_beq
passed_is_claimed = refl

still_claimed :
    (live : List Apqn) → (live_apqns node_os bus).0 ≡ ok live → contains live passed ≡ true
still_claimed live h =
    let q : claimed ≡ live = cc (live_on_bus, h) in
    subst (λ l. contains l passed ≡ true) q passed_is_claimed

abbrev config : Config
config = record {
  driver_name = bytes "cex.ibm.com";
  node_name = bytes "node";
  machine_id = [];
  sysinfo_path = bytes "/proc/sysinfo" ∷ [];
  heartbeat = none;
  plugin_data_dir = bytes "/var/lib";
  cdi_root = bytes "/var/run/cdi";
}

reconcile_spares_live_example :
    SameQueue node_os node_kernel passed_name bus (reconcile node_os false config bus)
reconcile_spares_live_example =
    reconcile_spares_live node_os node_kernel false config bus passed still_claimed

unreadable :
    read_matrix node_os (bytes "6a1e") unreadable_bus ≡ (err (matrix_io failed), unreadable_bus)
unfolding read_matrix read attribute_path vfio_ap_matrix_path
unreadable = refl

read_marker :
    node_os.read_file (queue_file passed.apid passed.apqi) unreadable_bus
    ≡ (ok vfio_ap, unreadable_bus)
unfolding read driver_override_path bytes text_beq
read_marker = refl

trimmed_marker : trim_space vfio_ap ≡ vfio_ap
unfolding trim_space trim_left trim_right is_space vfio_ap bytes text_beq
trimmed_marker = refl

parsed_path :
    parse_apqn_from_override_path (queue_file passed.apid passed.apqi)
    ≡ some (passed.apid, passed.apqi)
unfolding parse_apqn_from_override_path base_of_dir driver_override_path bytes cut
parsed_path = refl

drain_of_unreadable_mdev_example :
    drain_orphaned_vfio_ap node_os false unreadable_bus
    ≡ (ok tt, (switch_to_zcrypt node_os false passed.apid passed.apqi unreadable_bus).1)
drain_of_unreadable_mdev_example =
    drain_of_unreadable_mdev node_os false (record { name = bytes "6a1e"; is_dir = true })
      (queue_file passed.apid passed.apqi) passed.apid passed.apqi vfio_ap unreadable_bus
      unreadable_bus unreadable_bus unreadable_bus unreadable_bus refl refl unreadable refl
      read_marker trimmed_marker parsed_path
