-- ===== src/Sample/Machine/Queues.antt =====
-- The laws of the AP bus on the machine.
use k8s_cex_dra_driver.Prelude.{
  Text, [], ◌∷◌, ◌&&◌, text_beq, Option, none, ◌≡◌, refl, ◌==◌, text_eq, if◌then◌else◌,
}
use k8s_cex_dra_driver.Prelude.Exec.{err, is_ok}
use k8s_cex_dra_driver.Prelude.Strings.{bytes}
use k8s_cex_dra_driver.Os.{FilePath, not_exist}
use k8s_cex_dra_driver.Binding.{
  queue_id, driver_override_path, device_unbind_path, drivers_probe_path, vfio_ap, newline,
}
use k8s_cex_dra_driver.Binding.Kernel.{Kernel, or_else}
use k8s_cex_dra_driver.Cdi.{spec_path}
use k8s_cex_dra_driver.Metadata.{claim_dir}
use k8s_cex_dra_driver.DeviceState.Quiet.{metadata_path}
use k8s_cex_dra_driver.Mdev.{vfio_ap_matrix_path, attribute_path, mdev_create_path}
use k8s_cex_dra_driver.Sample.Node.{node_kernel}
use k8s_cex_dra_driver.Sample.Machine.{Machine, machine_os, write, read}

abbrev override : Machine → Text → Text
override m = node_kernel.override m.1

abbrev driver : Machine → Text → Option Text
driver m = node_kernel.driver m.1

abbrev Same : Text → Machine → Machine → Type 0
Same id m m' = (override m' id ≡ override m id) × (driver m' id ≡ driver m id)

read_law : (p : FilePath) (m : Machine) (id : Text) → Same id m (read p m).1
unfolding read
read_law [] m id = node_kernel.read_file_same [] m.1 id
read_law (a ∷ []) m id = node_kernel.read_file_same (a ∷ []) m.1 id
read_law (a ∷ b ∷ []) m id = node_kernel.read_file_same (a ∷ b ∷ []) m.1 id
read_law (a ∷ b ∷ c ∷ []) m id = (refl, refl)
read_law (a ∷ b ∷ c ∷ d ∷ p) m id = node_kernel.read_file_same (a ∷ b ∷ c ∷ d ∷ p) m.1 id

spec_law :
    (root uid text : Text) (m : Machine) (id : Text)
    → Same id m (write (spec_path root uid) text m).1
unfolding write spec_path
spec_law root uid text m id = node_kernel.spec_same root uid text m.1 id

metadata_law :
    (dir uid request text : Text) (m : Machine) (id : Text)
    → Same id m (write (metadata_path dir uid request) text m).1
unfolding write claim_dir bytes text_beq
metadata_law dir uid request text m id = node_kernel.metadata_same dir uid request text m.1 id

attribute_law :
    (uuid name text : Text) (m : Machine) (id : Text)
    → Same id m (write (attribute_path uuid name) text m).1
unfolding write attribute_path vfio_ap_matrix_path
attribute_law uuid name text m id = (refl, refl)

create_law : (uuid : Text) (m : Machine) (id : Text) → Same id m (write mdev_create_path uuid m).1
unfolding write mdev_create_path vfio_ap_matrix_path bytes text_beq
create_law uuid m id = (refl, refl)

set_marker_law :
    (apid apqi : Text) (m : Machine) (id : Text)
    → let r = write (driver_override_path apid apqi) vfio_ap m in
      (override r.1 id
        ≡ (if is_ok r.0 && (queue_id apid apqi == id) then vfio_ap else override m id))
      × (driver r.1 id ≡ driver m id)
unfolding write driver_override_path bytes text_beq
set_marker_law apid apqi m id = node_kernel.set_marker apid apqi m.1 id

set_newline_law :
    (apid apqi : Text) (m : Machine) (id : Text)
    → let r = write (driver_override_path apid apqi) newline m in
      (override r.1 id ≡ (if is_ok r.0 && (queue_id apid apqi == id) then [] else override m id))
      × (driver r.1 id ≡ driver m id)
unfolding write driver_override_path bytes text_beq
set_newline_law apid apqi m id = node_kernel.set_newline apid apqi m.1 id

unbind_law :
    (apid apqi : Text) (m : Machine) (id : Text)
    → let r = write (device_unbind_path apid apqi) (queue_id apid apqi) m in
      (override r.1 id ≡ override m id)
      × (driver r.1 id ≡ (if is_ok r.0 && (queue_id apid apqi == id) then none else driver m id))
unfolding write device_unbind_path
unbind_law apid apqi m id = node_kernel.unbind_write apid apqi m.1 id

unbind_absent_law :
    (apid apqi : Text) (m : Machine)
    → (write (device_unbind_path apid apqi) (queue_id apid apqi) m).0 ≡ err not_exist
    → driver m (queue_id apid apqi) ≡ none
unfolding write device_unbind_path
unbind_absent_law apid apqi m e = node_kernel.unbind_absent apid apqi m.1 e

probe_law :
    (apid apqi : Text) (m : Machine) (id : Text)
    → let r = write drivers_probe_path (queue_id apid apqi) m in
      (override r.1 id ≡ override m id)
      × (driver r.1 id ≡ (
          if is_ok r.0 && (queue_id apid apqi == id)
          then or_else (driver m id) (node_kernel.attach (override m id))
          else driver m id))
unfolding write drivers_probe_path
probe_law apid apqi m id = node_kernel.probe_write apid apqi m.1 id

pub machine_kernel : Kernel machine_os
machine_kernel = record {
  override = override;
  driver = driver;
  attach = node_kernel.attach;
  read_file_same = read_law;
  read_dir_same = λ p m. node_kernel.read_dir_same p m.1;
  glob_same = λ p m. node_kernel.glob_same p m.1;
  stat_same = λ p m id. (refl, refl);
  remove_same = λ p m id. (refl, refl);
  remove_all_same = λ p m id. (refl, refl);
  read_link_same = λ p m. node_kernel.read_link_same p m.1;
  mkdir_all_same = λ p m id. (refl, refl);
  spec_same = spec_law;
  metadata_same = metadata_law;
  attribute_same = attribute_law;
  create_same = create_law;
  set_marker = set_marker_law;
  set_newline = set_newline_law;
  unbind_write = unbind_law;
  unbind_absent = unbind_absent_law;
  probe_write = probe_law;
}
