-- ===== src/Preflight/Checks.antt =====
-- internal/preflight/checks.go: the bodies of the checks, and the list of them. The texts that go with
-- a verdict are left out.
pub mod Masks
pub mod Passes
use k8s_cex_dra_driver.Prelude.{
  ℕ, Text, List, [], ◌∷◌, ◌++◌, Bool, true, false, not, ◌&&◌, ◌||◌, text_eq, nat_beq, if◌then◌else◌,
}
use k8s_cex_dra_driver.Prelude.Exec.{Result, ok, err, is_ok}
use k8s_cex_dra_driver.Prelude.Strings.{bytes, trim_prefix, all}
use k8s_cex_dra_driver.Os.{Os, FilePath, IoError}
use k8s_cex_dra_driver.Features.{virtual_machine_workload}
use k8s_cex_dra_driver.Mdev.{vfio_ap_matrix_path}
use k8s_cex_dra_driver.Sysfs.Masks.{read_current_masks}
use k8s_cex_dra_driver.Preflight.{
  Status, status_ok, status_warn, status_error, Outcome, returned, Check, severity_error,
}

unfoldable pub sys_bus_ap_path : FilePath
sys_bus_ap_path = bytes "/sys/bus/ap" ∷ []

unfoldable pub sys_class_mdev_bus_path : FilePath
sys_class_mdev_bus_path = bytes "/sys/class/mdev_bus" ∷ []

unfoldable pub ap_queue_dir_glob : FilePath
ap_queue_dir_glob = bytes "/sys/bus/ap/devices" ∷ bytes "card*" ∷ bytes "*.*" ∷ []

abbrev is_f : ℕ → Bool
is_f c = nat_beq c b'f' || nat_beq c b'F'

-- Every hexadecimal digit is `f`, and there is one.
unfoldable pub mask_all_ones : Text → Bool
mask_all_ones mask =
    let digits = trim_prefix (trim_prefix mask (bytes "0x")) (bytes "0X") in
    elim digits [ [] ↦ false | c ∷ s ↦ all is_f (c ∷ s) ]

module _ (os : Os) where
  open os use {World, stat, glob}

  abbrev verdict : Bool → Status
  verdict true = status_ok
  verdict false = status_error

  unfoldable pub check_path_present : FilePath → World → Outcome × World
  check_path_present path w = let (r, w') = stat path w in (returned (verdict (is_ok r)), w')

  unfoldable pub check_vfio_ap_matrix : World → Outcome × World
  check_vfio_ap_matrix w =
      let (r, w') = stat vfio_ap_matrix_path w in (returned (verdict (is_ok r)), w')

  -- One queue decides for the bus: the first that the glob finds.
  abbrev probe_first : Result IoError (List FilePath) → World → Outcome × World
  probe_first (err e) w = (returned status_error, w)
  probe_first (ok []) w = (returned status_warn, w)
  probe_first (ok (queue_dir ∷ _)) w =
      let (r, w') = stat (queue_dir ++ (bytes "driver_override" ∷ [])) w in
      (returned (verdict (is_ok r)), w')

  unfoldable pub check_driver_override : World → Outcome × World
  check_driver_override w = let (r, w') = glob ap_queue_dir_glob w in probe_first r w'

  abbrev pub judge : Result IoError (Text × Text) → Status
  judge (err e) = status_error
  judge (ok (ap, aq)) =
      if not (mask_all_ones ap) || not (mask_all_ones aq) then status_error else status_ok

  unfoldable pub check_zcrypt_masks : World → Outcome × World
  check_zcrypt_masks w = let (r, w') = read_current_masks os w in (returned (judge r), w')

  abbrev entry : Text → (World → Outcome × World) → Text → Check World
  entry name body gate = record { name = name; severity = severity_error; body = body; gate = gate }

  -- Every check of the phase, in the order of the reports.
  unfoldable pub registry : List (Check World)
  registry =
      entry (bytes "/sys/bus/ap present") (check_path_present sys_bus_ap_path) []
      ∷ entry (bytes "vfio_ap loaded (/sys/devices/vfio_ap/matrix present)") check_vfio_ap_matrix
          virtual_machine_workload
      ∷ entry (bytes "mdev support (/sys/class/mdev_bus present)")
          (check_path_present sys_class_mdev_bus_path) virtual_machine_workload
      ∷ entry (bytes "driver_override on AP queues") check_driver_override []
      ∷ entry (bytes "zcrypt masks all-1s (driver_override precondition)") check_zcrypt_masks []
      ∷ []
