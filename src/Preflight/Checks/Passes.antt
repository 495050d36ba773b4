-- ===== src/Preflight/Checks/Passes.antt =====
-- When a node passes the checks of the registry. The node is taken to stand still while they look.
use k8s_cex_dra_driver.Prelude.{
  ℕ, ◌+◌, Text, List, [], ◌∷◌, ◌++◌, Bool, true, false, ◌&&◌, ◌||◌, ◌≡◌, ◌==◌, text_eq,
  if◌then◌else◌,
}
use k8s_cex_dra_driver.Prelude.Exec.{ok, err, is_ok}
use k8s_cex_dra_driver.Prelude.Strings.{bytes}
use k8s_cex_dra_driver.Os.{Os, FilePath}
use k8s_cex_dra_driver.Features.{virtual_machine_workload}
use k8s_cex_dra_driver.Mdev.{vfio_ap_matrix_path}
use k8s_cex_dra_driver.Sysfs.Masks.{ap_mask_path, aq_mask_path, normalize_mask}
use k8s_cex_dra_driver.Preflight.{Status, Outcome, returned, severity_error, Check}
use k8s_cex_dra_driver.Preflight.Gates.{is_error}
use k8s_cex_dra_driver.Preflight.Checks.{
  sys_bus_ap_path, sys_class_mdev_bus_path, ap_queue_dir_glob, mask_all_ones,
}
use k8s_cex_dra_driver.Preflight.Checks.Masks.{IsFull, printed}

-- Calls that read leave this world as it is.
pub record StandsStill (os : Os) (w : os.World) : Type 0 where
  pub stat_same : (p : FilePath) → (os.stat p w).1 ≡ w
  pub glob_same : (p : FilePath) → (os.glob p w).1 ≡ w
  pub read_same : (p : FilePath) → (os.read_file p w).1 ≡ w

module _ (os : Os) (w : os.World) where
  abbrev present : FilePath → Bool
  present p = is_ok (os.stat p w).0

  -- The bus has no queue, or its first queue has the override's file.
  abbrev pub overridable : Bool
  overridable = elim (os.glob ap_queue_dir_glob w).0 [
    | err e ↦ false
    | ok [] ↦ true
    | ok (queue_dir ∷ rest) ↦ present (queue_dir ++ (bytes "driver_override" ∷ []))
  ]

  -- The demands on the node; those of the virtual machines only with their gate.
  abbrev pub IsFit : (Text → Bool) → Text → Text → Type 0
  IsFit enabled ap aq =
      (present sys_bus_ap_path ≡ true)
      × (enabled virtual_machine_workload ≡ true
          → (present vfio_ap_matrix_path ≡ true) × (present sys_class_mdev_bus_path ≡ true))
      × (overridable ≡ true)
      × IsFull ap
      × IsFull aq

  abbrev failing : Bool → ℕ
  failing true = 0
  failing false = 1

  -- The check leaves the world alone, and ends in an error exactly if the test fails.
  abbrev Tests : (os.World → Outcome × os.World) → Bool → Type 0
  Tests body b = (s : Status) × (body w ≡ (returned s, w)) × (is_error s ≡ failing b)

  -- The checks are errors of these gates and tests.
  abbrev AreTests : List (Check os.World) → List (Text × Bool) → Type 0
  AreTests [] [] = Unit
  AreTests (c ∷ checks) ((gate, b) ∷ tests) =
      (c.gate ≡ gate) × (c.severity ≡ severity_error) × Tests c.body b × AreTests checks tests
  AreTests _ _ = ⊥

  abbrev failures : (Text → Bool) → List (Text × Bool) → ℕ
  failures enabled [] = 0
  failures enabled ((gate, b) ∷ tests) =
      (if gate == [] || enabled gate then failing b else 0) + failures enabled tests

  module _ (still : StandsStill os w) where
    module _ (ap aq : Text) (ap_reads : (os.read_file ap_mask_path w).0 ≡ ok (printed ap))
        (aq_reads : (os.read_file aq_mask_path w).0 ≡ ok (printed aq)) where
      abbrev full : Text → Bool
      full mask = mask_all_ones (normalize_mask (printed mask))

      abbrev registry_tests : List (Text × Bool)
      registry_tests =
          ([], present sys_bus_ap_path)
          ∷ (virtual_machine_workload, present vfio_ap_matrix_path)
          ∷ (virtual_machine_workload, present sys_class_mdev_bus_path)
          ∷ ([], overridable)
          ∷ ([], full ap && full aq)
          ∷ []
