-- ===== src/Binding.antt =====
-- internal/binding/binding.go: switching one queue between the zcrypt and the vfio-ap driver.
-- Log lines are left out, but the reads that serve only them are made.
pub mod Kernel
pub mod Mdevs
pub mod Switch
pub mod Recovery
use k8s_cex_dra_driver.Prelude.{Text, [], ◌∷◌, ◌++◌, Bool, if◌then◌else◌}
use k8s_cex_dra_driver.Prelude.Exec.{Result, ok, err, Exec, pure, wrap, map_err, ◌>>=◌, ◌>>◌}
use k8s_cex_dra_driver.Prelude.Strings.{bytes}
use k8s_cex_dra_driver.Os.{Os, FilePath, IoError, not_exist, failed}

-- The step that failed.
pub data SwitchError : Type 0 where
  write_override unbind clear_override probe : IoError → SwitchError

unfoldable pub ap_devices_path : FilePath
ap_devices_path = bytes "/sys/devices/ap" ∷ []

unfoldable pub drivers_probe_path : FilePath
drivers_probe_path = bytes "/sys/bus/ap/drivers_probe" ∷ []

-- `fmt.Sprintf("%s.%s", apid, apqi)`
abbrev pub queue_id : Text → Text → Text
queue_id apid apqi = apid ++ (b'.' ∷ apqi)

unfoldable pub queue_path : Text → Text → FilePath
unfolding ap_devices_path
queue_path apid apqi = ap_devices_path ++ ((bytes "card" ++ apid) ∷ queue_id apid apqi ∷ [])

unfoldable pub driver_override_path : Text → Text → FilePath
unfolding queue_path
driver_override_path apid apqi = queue_path apid apqi ++ (bytes "driver_override" ∷ [])

unfoldable pub device_unbind_path : Text → Text → FilePath
unfolding queue_path
device_unbind_path apid apqi = queue_path apid apqi ++ (bytes "driver" ∷ bytes "unbind" ∷ [])

-- The override that hands a queue to vfio-ap, and by which the startup drain finds it.
unfoldable pub vfio_ap : Text
vfio_ap = bytes "vfio_ap"

unfoldable pub newline : Text
newline = bytes "\n"

module _ (os : Os) where
  open os use {World, read_file, write_file}

  -- A queue bound to no driver has no `driver` link, and there is nothing to unbind.
  abbrev absent_is_ok : Result IoError (Unit {0}) → Result SwitchError (Unit {0})
  absent_is_ok (ok _) = ok tt
  absent_is_ok (err not_exist) = ok tt
  absent_is_ok (err failed) = err (unbind failed)

  unfoldable pub unbind_queue : Text → Text → Exec World SwitchError (Unit {0})
  unbind_queue apid apqi w =
      let (r, w') = write_file (device_unbind_path apid apqi) (queue_id apid apqi) w in
      (absent_is_ok r, w')

  unfoldable pub switch_to_vfio_ap : Text → Text → Exec World SwitchError (Unit {0})
  unfolding unbind_queue
  switch_to_vfio_ap apid apqi = do
    wrap write_override (write_file (driver_override_path apid apqi) vfio_ap)
    unbind_queue apid apqi
    wrap probe (write_file drivers_probe_path (queue_id apid apqi))

  -- The read is made only at the verbosity that would log it, and its outcome is dropped.
  unfoldable pub log_override : Bool → FilePath → Exec World SwitchError (Unit {0})
  log_override verbose path w = if verbose then (ok tt, (read_file path w).1) else (ok tt, w)

  -- The third step of `SwitchToZcrypt`: a failed probe puts the marker back, best-effort.
  abbrev restore_marker :
      Text → Text → Result IoError (Unit {0}) → Exec World SwitchError (Unit {0})
  restore_marker apid apqi (ok _) w = (ok tt, w)
  restore_marker apid apqi (err e) w =
      let (_, w') = write_file (driver_override_path apid apqi) vfio_ap w in (err (probe e), w')

  unfoldable pub probe_or_restore : Text → Text → Exec World SwitchError (Unit {0})
  probe_or_restore apid apqi w =
      let (r, w') = write_file drivers_probe_path (queue_id apid apqi) w in
      restore_marker apid apqi r w'

  unfoldable pub switch_to_zcrypt : Bool → Text → Text → Exec World SwitchError (Unit {0})
  unfolding unbind_queue log_override probe_or_restore
  switch_to_zcrypt verbose apid apqi = do
    unbind_queue apid apqi
    log_override verbose (driver_override_path apid apqi)
    wrap clear_override (write_file (driver_override_path apid apqi) newline)
    log_override verbose (driver_override_path apid apqi)
    probe_or_restore apid apqi
