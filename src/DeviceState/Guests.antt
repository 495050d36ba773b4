-- ===== src/DeviceState/Guests.antt =====
-- What the vfio_ap module documents of its mediated devices. Nobody else changes them while the driver
-- runs.
pub mod Rows
pub mod Switch
pub mod Drain
pub mod Apart
pub mod Build
pub mod Ensure
use k8s_cex_dra_driver.Prelude.{
  ℕ, Text, List, [], ◌∷◌, ◌++◌, Bool, true, false, ◌&&◌, ◌||◌, ◌≡◌, ◌==◌, text_eq, length, contains,
  All, IsNodup, if◌then◌else◌,
}
use k8s_cex_dra_driver.Prelude.Exec.{ok, is_ok}
use k8s_cex_dra_driver.Prelude.Strings.{bytes, all}
use k8s_cex_dra_driver.Os.{Os, FilePath}
use k8s_cex_dra_driver.Mdev.{Apqn, apqn_eq, vfio_ap_matrix_path, attribute_path, mdev_create_path}
use k8s_cex_dra_driver.Binding.{driver_override_path, device_unbind_path, drivers_probe_path}
use k8s_cex_dra_driver.DeviceState.Quiet.{Quiet}
use k8s_cex_dra_driver.Mdev.Matrix.{IsHex, is_hex_digit, print_matrix}

-- A mediated device: the adapters and domains that were assigned to it, and the rows of its matrix.
pub record Guest : Type 0 where
  pub present : Bool
  pub adapters : Text → Bool
  pub domains : Text → Bool
  pub rows : List Apqn

abbrev pub no_guest : Guest
no_guest = record { present = false; adapters = λ t. false; domains = λ t. false; rows = [] }

abbrev pub new_guest : Guest
new_guest = record no_guest { present = true }

-- The number as the module prints it: so many digits of lowercase hexadecimal.
abbrev pub IsNumber : ℕ → Text → Type 0
IsNumber digits t = (length t ≡ digits) × (all is_hex_digit t ≡ true)

abbrev pub assign_adapter_path : Text → FilePath
assign_adapter_path uuid = attribute_path uuid (bytes "assign_adapter")

abbrev pub assign_domain_path : Text → FilePath
assign_domain_path uuid = attribute_path uuid (bytes "assign_domain")

pub record Guests (os : Os) : Type 0 where
  pub guest : os.World → Text → Guest
  -- The queues and the files of the plugin lie beside them.
  pub apart : Quiet os guest
  pub override_write :
      (apid apqi text : Text) (w : os.World)
      → guest (os.write_file (driver_override_path apid apqi) text w).1 ≡ guest w
  pub unbind_write :
      (apid apqi text : Text) (w : os.World)
      → guest (os.write_file (device_unbind_path apid apqi) text w).1 ≡ guest w
  pub probe_write :
      (text : Text) (w : os.World) → guest (os.write_file drivers_probe_path text w).1 ≡ guest w
  -- The matrix file lists each adapter with each domain, once both are assigned.
  pub rows_cross :
      (w : os.World) (uuid a d : Text)
      → (guest w uuid).adapters a ≡ true
      → (guest w uuid).domains d ≡ true
      → (q : Apqn)
      → contains (guest w uuid).rows q
        ≡ ((guest w uuid).adapters q.apid && (guest w uuid).domains q.apqi)
  pub rows_IsHex : (w : os.World) (uuid : Text) → All IsHex (guest w uuid).rows
  pub rows_IsNodup : (w : os.World) (uuid : Text) → IsNodup (guest w uuid).rows
  pub matrix_read :
      (uuid content : Text) (w : os.World)
      → (os.read_file (attribute_path uuid (bytes "matrix")) w).0 ≡ ok content
      → content ≡ print_matrix (guest w uuid).rows
  pub stat_present :
      (uuid : Text) (w : os.World)
      → is_ok (os.stat (vfio_ap_matrix_path ++ (uuid ∷ [])) w).0 ≡ (guest w uuid).present
  pub create_write :
      (uuid : Text) (w : os.World) (other : Text)
      → let r = os.write_file mdev_create_path uuid w in
        guest r.1 other ≡ (if is_ok r.0 && uuid == other then new_guest else guest w other)
  pub remove_write :
      (uuid : Text) (w : os.World) (other : Text)
      → let r = os.write_file (attribute_path uuid (bytes "remove")) (bytes "1") w in
        guest r.1 other ≡ (if is_ok r.0 && uuid == other then no_guest else guest w other)
  -- An assignment that succeeds adds a number that is written as the module prints it.
  pub adapter_write :
      (uuid t : Text) (w : os.World)
      → IsNumber 2 t
      → let r = os.write_file (assign_adapter_path uuid) (bytes "0x" ++ t) w in
        r.0 ≡ ok tt
        → ((guest r.1 uuid).present ≡ (guest w uuid).present)
          × ((guest r.1 uuid).domains ≡ (guest w uuid).domains)
          × ((x : Text) → (guest r.1 uuid).adapters x ≡ ((guest w uuid).adapters x || t == x))
  pub domain_write :
      (uuid t : Text) (w : os.World)
      → IsNumber 4 t
      → let r = os.write_file (assign_domain_path uuid) (bytes "0x" ++ t) w in
        r.0 ≡ ok tt
        → ((guest r.1 uuid).present ≡ (guest w uuid).present)
          × ((guest r.1 uuid).adapters ≡ (guest w uuid).adapters)
          × ((x : Text) → (guest r.1 uuid).domains x ≡ ((guest w uuid).domains x || t == x))
  -- The control domains are kept apart from the domains that a guest uses.
  pub control_domain_write :
      (uuid t : Text) (w : os.World)
      → guest (os.write_file (attribute_path uuid (bytes "assign_control_domain")) t w).1 ≡ guest w
  pub attribute_other :
      (uuid name text : Text) (w : os.World) (other : Text)
      → (uuid == other) ≡ false
      → guest (os.write_file (attribute_path uuid name) text w).1 other ≡ guest w other
