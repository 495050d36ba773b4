-- ===== src/Sample/Machine.antt =====
-- A node with a bus of AP queues, and a host of mediated devices beside it.
pub mod Queues
use k8s_cex_dra_driver.Prelude.{
  Text, List, [], ◌∷◌, ◌++◌, ◌||◌, ◌&&◌, text_beq, Bool, true, false, Option, none, some, ◌∙◌, ◌≡◌,
  refl, sym, ap, ◌==◌, text_eq, arith, if◌then◌else◌,
}
use k8s_cex_dra_driver.Prelude.Exec.{Result, ok, err, Exec, is_ok}
use k8s_cex_dra_driver.Prelude.Strings.{bytes}
use k8s_cex_dra_driver.Os.{Os, FilePath, DirEntry, IoError, not_exist}
use k8s_cex_dra_driver.Binding.Kernel.{Kernel, or_else}
use k8s_cex_dra_driver.DeviceState.Guests.{
  Guest, Guests, IsNumber, new_guest, no_guest, assign_adapter_path, assign_domain_path,
}
use k8s_cex_dra_driver.DeviceState.Quiet.{metadata_path}
use k8s_cex_dra_driver.Mdev.{Apqn, vfio_ap_matrix_path, attribute_path, mdev_create_path}
use k8s_cex_dra_driver.Mdev.Matrix.{print_matrix}
use k8s_cex_dra_driver.Binding.{
  queue_id, driver_override_path, device_unbind_path, drivers_probe_path, vfio_ap, newline,
}
use k8s_cex_dra_driver.Cdi.{spec_path}
use k8s_cex_dra_driver.Metadata.{claim_dir}
use k8s_cex_dra_driver.Sample.Node
use k8s_cex_dra_driver.Sample.Node.{Node, node_os, node_kernel}
use k8s_cex_dra_driver.Sample.Host
use k8s_cex_dra_driver.Sample.Host.{Assigned, Host, host_os, host}

abbrev pub Machine : Type 0
Machine = Host × Node

abbrev on_host : {A : Type 0} → Exec Host IoError A → Exec Machine IoError A
on_host m (h, n) = let (r, h') = m h in (r, (h', n))

abbrev on_node : {A : Type 0} → Exec Node IoError A → Exec Machine IoError A
on_node m (h, n) = let (r, n') = m n in (r, (h, n'))

-- The attributes of an mdev, and the file that makes one, are on the host.
unfoldable pub write : FilePath → Text → Exec Machine IoError (Unit {0})
write (a ∷ uuid ∷ name ∷ []) text = on_host (Host.write (a ∷ uuid ∷ name ∷ []) text)
write (a ∷ b ∷ c ∷ attr ∷ []) text =
    if attr == bytes "create"
    then on_host (Host.write (a ∷ b ∷ c ∷ attr ∷ []) text)
    else on_node (Node.write (a ∷ b ∷ c ∷ attr ∷ []) text)
write path text = on_node (Node.write path text)

unfoldable pub read : FilePath → Exec Machine IoError Text
read (a ∷ uuid ∷ name ∷ []) = on_host (host_os.read_file (a ∷ uuid ∷ name ∷ []))
read path = on_node (Node.read path)

abbrev pub machine_os : Os
machine_os = record {
  World = Machine;
  read_file = read;
  write_file = write;
  stat = λ p. on_host (host_os.stat p);
  read_dir = λ p. on_node (node_os.read_dir p);
  read_link = λ p. on_node (node_os.read_link p);
  remove = λ p m. (ok tt, m);
  remove_all = λ p m. (ok tt, m);
  mkdir_all = λ p m. (ok tt, m);
  glob = λ p. on_node (node_os.glob p);
}

read_host : (p : FilePath) (m : Machine) → (read p m).1.0 ≡ m.0
unfolding read
read_host [] m = refl
read_host (a ∷ []) m = refl
read_host (a ∷ b ∷ []) m = refl
read_host (a ∷ b ∷ c ∷ []) m = refl
read_host (a ∷ b ∷ c ∷ d ∷ p) m = refl

abbrev guest : Machine → Text → Guest
guest m = host.guest m.0

spec_law :
    (root uid text : Text) (m : Machine) → guest (write (spec_path root uid) text m).1 ≡ guest m
unfolding write spec_path
spec_law root uid text m = refl

metadata_law :
    (dir uid request text : Text) (m : Machine)
    → guest (write (metadata_path dir uid request) text m).1 ≡ guest m
unfolding write claim_dir bytes text_beq
metadata_law dir uid request text m = refl

override_law :
    (apid apqi text : Text) (m : Machine)
    → guest (write (driver_override_path apid apqi) text m).1 ≡ guest m
unfolding write driver_override_path bytes text_beq
override_law apid apqi text m = refl

unbind_law :
    (apid apqi text : Text) (m : Machine)
    → guest (write (device_unbind_path apid apqi) text m).1 ≡ guest m
unfolding write device_unbind_path
unbind_law apid apqi text m = refl

probe_law : (text : Text) (m : Machine) → guest (write drivers_probe_path text m).1 ≡ guest m
unfolding write drivers_probe_path
probe_law text m = refl

matrix_law :
    (uuid content : Text) (m : Machine)
    → (read (attribute_path uuid (bytes "matrix")) m).0 ≡ ok content
    → content ≡ print_matrix (guest m uuid).rows
unfolding read attribute_path vfio_ap_matrix_path
matrix_law uuid content m e = host.matrix_read uuid content m.0 e

create_law :
    (uuid : Text) (m : Machine) (other : Text)
    → let r = write mdev_create_path uuid m in
      guest r.1 other ≡ (if is_ok r.0 && uuid == other then new_guest else guest m other)
unfolding write mdev_create_path vfio_ap_matrix_path bytes text_beq
create_law uuid m other = host.create_write uuid m.0 other

-- A write to an attribute of an mdev goes to the host.
write_attribute :
    (uuid name text : Text) (m : Machine)
    → let (r, h) = host_os.write_file (attribute_path uuid name) text m.0 in
      write (attribute_path uuid name) text m ≡ (r, (h, m.1))
unfolding write attribute_path vfio_ap_matrix_path
write_attribute uuid name text m = refl

remove_law :
    (uuid : Text) (m : Machine) (other : Text)
    → let r = write (attribute_path uuid (bytes "remove")) (bytes "1") m in
      guest r.1 other ≡ (if is_ok r.0 && uuid == other then no_guest else guest m other)
remove_law uuid m other =
    rw (write_attribute uuid (bytes "remove") (bytes "1") m) (host.remove_write uuid m.0 other)

adapter_law :
    (uuid t : Text) (m : Machine)
    → IsNumber 2 t
    → let r = write (assign_adapter_path uuid) (bytes "0x" ++ t) m in
      r.0 ≡ ok tt
      → ((guest r.1 uuid).present ≡ (guest m uuid).present)
        × ((guest r.1 uuid).domains ≡ (guest m uuid).domains)
        × ((x : Text) → (guest r.1 uuid).adapters x ≡ ((guest m uuid).adapters x || t == x))
adapter_law uuid t m =
    rw (write_attribute uuid (bytes "assign_adapter") (bytes "0x" ++ t) m)
      (host.adapter_write uuid t m.0)

domain_law :
    (uuid t : Text) (m : Machine)
    → IsNumber 4 t
    → let r = write (assign_domain_path uuid) (bytes "0x" ++ t) m in
      r.0 ≡ ok tt
      → ((guest r.1 uuid).present ≡ (guest m uuid).present)
        × ((guest r.1 uuid).adapters ≡ (guest m uuid).adapters)
        × ((x : Text) → (guest r.1 uuid).domains x ≡ ((guest m uuid).domains x || t == x))
domain_law uuid t m =
    rw (write_attribute uuid (bytes "assign_domain") (bytes "0x" ++ t) m)
      (host.domain_write uuid t m.0)

control_domain_law :
    (uuid t : Text) (m : Machine)
    → guest (write (attribute_path uuid (bytes "assign_control_domain")) t m).1 ≡ guest m
control_domain_law uuid t m =
    rw (write_attribute uuid (bytes "assign_control_domain") t m)
      (host.control_domain_write uuid t m.0)

attribute_law :
    (uuid name text : Text) (m : Machine) (other : Text)
    → (uuid == other) ≡ false
    → guest (write (attribute_path uuid name) text m).1 other ≡ guest m other
attribute_law uuid name text m other apart =
    rw (write_attribute uuid name text m) (host.attribute_other uuid name text m.0 other apart)

pub machine_guests : Guests machine_os
machine_guests = record {
  guest = guest;
  apart = record {
    read_file = λ p m. ap host.guest (read_host p m);
    stat = λ p m. refl;
    read_dir = λ p m. refl;
    read_link = λ p m. refl;
    glob = λ p m. refl;
    remove = λ p m. refl;
    remove_all = λ p m. refl;
    mkdir_all = λ p m. refl;
    write_spec = spec_law;
    write_metadata = metadata_law;
  };
  override_write = override_law;
  unbind_write = unbind_law;
  probe_write = probe_law;
  rows_cross = λ m. host.rows_cross m.0;
  rows_IsHex = λ m. host.rows_IsHex m.0;
  rows_IsNodup = λ m. host.rows_IsNodup m.0;
  matrix_read = matrix_law;
  stat_present = λ uuid m. host.stat_present uuid m.0;
  create_write = create_law;
  remove_write = remove_law;
  adapter_write = adapter_law;
  domain_write = domain_law;
  control_domain_write = control_domain_law;
  attribute_other = attribute_law;
}

pub machine_guest : (m : Machine) (uuid : Text) → machine_guests.guest m uuid ≡ Host.view (m.0 uuid)
unfolding machine_guests
machine_guest m uuid = Host.host_guest m.0 uuid

-- The matrix file of an mdev that is there can be read.
pub machine_readable :
    (uuid : Text) (m : Machine)
    → (machine_guests.guest m uuid).present ≡ true
    → is_ok (machine_os.read_file (attribute_path uuid (bytes "matrix")) m).0 ≡ true
unfolding read attribute_path vfio_ap_matrix_path Host.content Host.found
machine_readable uuid m present = go (m.0 uuid) refl (machine_guests.stat_present uuid m ∙ present)
  where
    go :
        (o : Option Assigned)
        → m.0 uuid ≡ o
        → is_ok (machine_os.stat (vfio_ap_matrix_path ++ (uuid ∷ [])) m).0 ≡ true
        → is_ok (machine_os.read_file (attribute_path uuid (bytes "matrix")) m).0 ≡ true
    go none e h = absurd (ground arith)
    go (some a) e h = ground arith
