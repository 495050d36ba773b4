-- ===== src/Tests/Cycle.antt =====
-- Scan cycles and calls of the kubelet on a small node.
use k8s_cex_dra_driver.Prelude.{some, Text, [], true, false, ◌≡◌, refl, text_beq, text_eq}
use k8s_cex_dra_driver.Prelude.Exec.{ok, err, Exec}
use k8s_cex_dra_driver.Prelude.Strings.{bytes, has_prefix}
use k8s_cex_dra_driver.Resource.{DriverResources}
use k8s_cex_dra_driver.ApScanner.{scan, is_card_name}
use k8s_cex_dra_driver.ApScanner.Tracker.{MkvpTracker, new_mkvp_tracker}
use k8s_cex_dra_driver.DeviceState.{new, compare_and_update}
use k8s_cex_dra_driver.DeviceState.Hash.{compute_devices_hash}
use k8s_cex_dra_driver.Driver.{Driver, publish_error, scan_and_publish}
use k8s_cex_dra_driver.Driver.Cycle.{failed_publish_not_retried}
use k8s_cex_dra_driver.Sample.Node.{node_os, Node, bus}

abbrev digest : Text → Text
digest text = bytes "e3"

abbrev started : Driver
started = record {
  state = new (bytes "node") (bytes "cex.ibm.com") (bytes "/var/run/cdi") (bytes "/var/lib");
  mkvp_tracker = new_mkvp_tracker;
  scan_pending = false;
  heartbeat = some 0;
  machine_id = bytes "m";
}

abbrev scanned_once : MkvpTracker
scanned_once = record new_mkvp_tracker { first_scan_done = true }

abbrev machine : Text
machine = bytes "m"

-- The plugin library refuses every publication.
abbrev refuse : DriverResources → Exec Node (Unit {0}) (Unit {0})
refuse resources n = (err tt, n)

first_scan : scan node_os machine new_mkvp_tracker bus ≡ (ok [], scanned_once, bus)
unfolding scan is_card_name bytes has_prefix
first_scan = refl

second_scan : scan node_os machine scanned_once bus ≡ (ok [], scanned_once, bus)
unfolding scan is_card_name bytes has_prefix
second_scan = refl

first_change : (compare_and_update digest [] started.state).0 ≡ true
unfolding compare_and_update compute_devices_hash new bytes text_beq
first_change = refl

failed_publish_not_retried_example :
    let (r, d', w') = scan_and_publish node_os digest refuse started bus in
    (r ≡ err (publish_error tt))
    × (scan_and_publish node_os digest refuse d' w'
        ≡ (ok tt, record d' { mkvp_tracker = scanned_once }, bus))
failed_publish_not_retried_example =
    failed_publish_not_retried node_os digest refuse started bus bus bus bus scanned_once
      scanned_once [] tt first_scan first_change refl second_scan
