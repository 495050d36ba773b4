-- ===== src/Tests/Plugin.antt =====
-- The driver and the plugin on a node with one card.
use k8s_cex_dra_driver.Prelude.{
  ℕ, suc, ◌-◌, ◌≤◌, Text, [], ◌∷◌, true, false, some, ◌≡◌, ◌⊎◌, refl, length, drop, text_beq, arith,
}
use k8s_cex_dra_driver.Prelude.Exec.{ok}
use k8s_cex_dra_driver.Prelude.Strings.{bytes, has_prefix, all, cut, trim_space, trim_prefix}
use k8s_cex_dra_driver.ApScanner.{DevicesByCard, scan, is_card_name, card_type_of, accel}
use k8s_cex_dra_driver.Binding.{ap_devices_path}
use k8s_cex_dra_driver.ApScanner.Queue.{
  ApQueue, CardStatus, QueueStatus, queue_to_device, is_hex_lower, scan_queue, match_queue_name,
  base,
}
use k8s_cex_dra_driver.ApScanner.Tracker.{
  MkvpTracker, MkvpState, evaluate, zcrypt_driver, vfio_ap_driver,
}
use k8s_cex_dra_driver.Sysfs.Mkvp.{cca, ep11}
use k8s_cex_dra_driver.Mdev.{exists, vfio_ap_matrix_path}
use k8s_cex_dra_driver.Prelude.Dict.{put}
use k8s_cex_dra_driver.Prelude.Int.{pos, atoi}
use k8s_cex_dra_driver.Binding.Recovery.{drain_orphaned_vfio_ap}
use k8s_cex_dra_driver.Cdi.{gc_stale_claim_specs}
use k8s_cex_dra_driver.Metadata.{gc_stale_claim_metadata}
use k8s_cex_dra_driver.Health
use k8s_cex_dra_driver.Health.Edges.{within}
use k8s_cex_dra_driver.DeviceState.Allocation.{nothing_collected}
use k8s_cex_dra_driver.DeviceState.Published.Pools.{in_pools, in_slices}
use k8s_cex_dra_driver.DeviceState.Snapshot.{has_device}
use k8s_cex_dra_driver.DeviceState.Hash.{compute_devices_hash}
use k8s_cex_dra_driver.ApScanner.Tracker.{new_mkvp_tracker}
use k8s_cex_dra_driver.DeviceState
use k8s_cex_dra_driver.Driver.{Driver, trigger_scan, run_scan_cycle, prepare_resource_claims}
use k8s_cex_dra_driver.Driver.Start
use k8s_cex_dra_driver.Driver.Start.{Config, initial, reconcile, begin, resolve}
use k8s_cex_dra_driver.Driver.Loop.{
  site, triggered, prepared, Reach, here, next, unknown_health_report,
}
use k8s_cex_dra_driver.Driver.Offers.{IsFoundIfOffered, reported, reachable_lookup}
use k8s_cex_dra_driver.Driver.Requests.{
  serves, is_call, call_pending_or_served, run_scan_cycle-check,
}
use k8s_cex_dra_driver.Driver.Stream.{
  offering, Watched, opened, beside, taken, elapsed_offering, elapsed_resting, ticked, ticks,
  IsFresh, sent-IsFresh,
}
use k8s_cex_dra_driver.Main.{new_driver, driver_config, validate_machine_id, max_machine_id_len}
use k8s_cex_dra_driver.Main.Exit.{IsEnd, action-exit_code}
use k8s_cex_dra_driver.Main.Names.{HasSysInfo, offered_name_fits}
use k8s_cex_dra_driver.Sample.Card.{card_os, libraries, flags, card_env}

abbrev queue : ApQueue
queue = record {
  apid = bytes "02";
  apqi = bytes "0008";
  card_type = accel;
  generation = pos 8;
  card_status = CardStatus.configured;
  queue_status = QueueStatus.online;
  driver = zcrypt_driver;
  mkvps = [];
  mkvp_state = MkvpState.known;
}

abbrev offered_devices : DevicesByCard
offered_devices = (bytes "card02", queue_to_device queue (bytes "m") ∷ []) ∷ []

abbrev after_scan : MkvpTracker
after_scan = record new_mkvp_tracker { first_scan_done = true }

scan_lem : scan card_os (bytes "m") new_mkvp_tracker 0 ≡ (ok offered_devices, after_scan, 0)
unfolding scan is_card_name bytes has_prefix text_beq ap_devices_path all is_hex_lower card_type_of
    trim_space drop atoi scan_queue match_queue_name cut evaluate cca ep11 accel base zcrypt_driver
    vfio_ap_driver trim_prefix put
scan_lem = refl

abbrev cfg : Config
cfg = driver_config libraries flags (some 0)

abbrev d : Driver
d =
    initial card_os libraries.sha256_hex false (libraries.start tt) libraries.publish cfg
      (bytes "m") offered_devices after_scan

reconcile_lem : reconcile card_os false cfg 0 ≡ 0
unfolding reconcile drain_orphaned_vfio_ap gc_stale_claim_specs gc_stale_claim_metadata bytes
    text_beq vfio_ap_matrix_path exists
reconcile_lem = refl

resolve_lem : resolve card_os cfg 0 ≡ (ok (bytes "m"), 0)
unfolding resolve driver_config bytes text_beq
resolve_lem = refl

begin_lem :
    begin card_os libraries.sha256_hex false
      (libraries.start tt)
      libraries.publish
      cfg
      (bytes "m")
      0
    ≡ (ok d, 0)
unfolding begin
begin_lem = rw (reconcile_lem, scan_lem) refl

started : new_driver libraries flags tt (some 0) 0 ≡ (ok d, 0)
unfolding Start.new
started = rw (resolve_lem, begin_lem) refl

offered : in_pools d.state.driver_resources (bytes "m-02-0008") ≡ true
unfolding initial in_pools in_slices has_device queue_to_device bytes text_beq put DeviceState.new
    DeviceState.compare_and_update compute_devices_hash
offered = refl

-- The driver after a call of the kubelet
abbrev asked : Driver × ℕ
asked =
    site card_os card_env libraries.sha256_hex libraries.publish libraries.clock
      (prepare_resource_claims card_os card_env d [] 0)

asked_pending : asked.0.scan_pending ≡ true
unfolding prepare_resource_claims trigger_scan
asked_pending = refl

abbrev cycled : Driver × ℕ
cycled =
    run_scan_cycle card_os libraries.sha256_hex libraries.publish libraries.clock
      (record asked.0 { scan_pending = false }) asked.1

abbrev steps :
    Reach card_os card_env libraries.sha256_hex libraries.publish libraries.clock (d, 0) cycled
steps = next (next here (prepared d 0 [])) (triggered asked.0 asked.1 asked_pending)

reachable_lookup_example :
    (id : Text) × ((resolve card_os cfg 0).0 ≡ ok id)
    × IsFoundIfOffered id cycled.0.state (bytes "m-02-0008") nothing_collected
    × ((t : ℕ)
        → reported (unknown_health_report cycled.0 t) (bytes "m-02-0008")
          ≡ in_pools cycled.0.state.driver_resources (bytes "m-02-0008"))
reachable_lookup_example =
    reachable_lookup card_os card_env libraries.sha256_hex false (libraries.start tt)
      libraries.publish libraries.clock cfg 0 0 cycled.1 d cycled.0 (bytes "m-02-0008")
      nothing_collected started steps

-- A stream whose reader has taken the report of the opening, and waits for the one of the tick; a
-- second tick is dropped.
abbrev waiting :
    Watched card_os card_env libraries.sha256_hex libraries.publish libraries.clock
      (d, 0)
      cycled
      (offering true (unknown_health_report cycled.0 (libraries.clock cycled.1)))
      (((d, 0), unknown_health_report d (libraries.clock 0)) ∷ [])
waiting = elapsed_offering (
    ticked (
      beside (elapsed_resting (elapsed_resting (beside (taken opened) (prepared d 0 []))))
        (triggered asked.0 asked.1 asked_pending)))

sent-IsFresh_example :
    IsFresh card_os card_env libraries.sha256_hex libraries.publish libraries.clock
      (d, 0)
      (((d, 0), unknown_health_report d (libraries.clock 0)) ∷ [])
    × (1
        ≤ suc
            (ticks card_os card_env libraries.sha256_hex libraries.publish libraries.clock waiting))
sent-IsFresh_example =
    sent-IsFresh card_os card_env libraries.sha256_hex libraries.publish libraries.clock waiting

beats : d.heartbeat ≡ some 0
unfolding initial driver_config
beats = refl

run_scan_cycle-check_example :
    let (d', w') =
      run_scan_cycle card_os libraries.sha256_hex libraries.publish libraries.clock d 0 in
    Health.check d'.heartbeat (pos 300) (bytes "liveness") 10 ≡ some (within (pos 300) (10 - w'))
run_scan_cycle-check_example =
    run_scan_cycle-check card_os card_env libraries.sha256_hex libraries.publish libraries.clock d 0
      0 10 (pos 300) beats

is_a_call :
    is_call card_os card_env libraries.sha256_hex libraries.publish libraries.clock
      (prepared d 0 [])
    ≡ true
unfolding is_call
is_a_call = refl

call_pending_or_served_example :
    (cycled.0.scan_pending ≡ true)
    ⊎ (serves card_os card_env libraries.sha256_hex libraries.publish libraries.clock
          (next here (triggered asked.0 asked.1 asked_pending))
        ≡ true)
call_pending_or_served_example =
    call_pending_or_served card_os card_env libraries.sha256_hex libraries.publish libraries.clock
      (prepared d 0 []) (next here (triggered asked.0 asked.1 asked_pending)) is_a_call

id_accepted : validate_machine_id libraries (bytes "m") ≡ ok tt
unfolding validate_machine_id max_machine_id_len bytes text_beq
id_accepted = refl

-- The identifier is configured.
no_sysinfo : HasSysInfo libraries flags 0
unfolding bytes
no_sysinfo e = absurd (ground arith)

offered_name_fits_example : length (bytes "m-02-0008") ≤ 63
offered_name_fits_example =
    offered_name_fits libraries card_env flags tt (some 0) 0 0 0 d d (bytes "m-02-0008") id_accepted
      no_sysinfo started here offered

action-exit_code_example : IsEnd libraries flags tt 0
action-exit_code_example = action-exit_code libraries flags tt 0
