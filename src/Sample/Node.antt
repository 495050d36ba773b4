-- ===== src/Sample/Node.antt =====
-- A node with a bus of AP queues and one file content for every mdev's matrix.
use k8s_cex_dra_driver.Prelude.{
  Text, List, [], ◌∷◌, ◌++◌, Bool, true, false, ◌&&◌, Option, none, some, ◌≡◌, refl, ◌==◌, text_eq,
  text_beq_iff, arith, if◌then◌else◌,
}
use k8s_cex_dra_driver.Prelude.Exec.{Result, ok, err, Exec, is_ok}
use k8s_cex_dra_driver.Prelude.Strings.{bytes}
use k8s_cex_dra_driver.Os.{Os, FilePath, DirEntry, IoError, not_exist, failed}
use k8s_cex_dra_driver.Mdev.{attribute_path, mdev_create_path, vfio_ap_matrix_path}
use k8s_cex_dra_driver.Binding.{
  queue_id, driver_override_path, device_unbind_path, drivers_probe_path, vfio_ap, newline,
}
use k8s_cex_dra_driver.Cdi.{spec_path}
use k8s_cex_dra_driver.Metadata.{claim_dir}
use k8s_cex_dra_driver.DeviceState.Quiet.{metadata_path}
use k8s_cex_dra_driver.Binding.Kernel.{Kernel, or_else}

pub record Node : Type 0 where
  pub overrides : Text → Text
  pub drivers : Text → Option Text
  pub entries : List DirEntry
  pub matrix : Result IoError Text
  pub override_files : List FilePath
  -- Writes of an override fail.
  pub locked : Bool

abbrev set : {A : Type 0} → Text → A → (Text → A) → Text → A
set id a f j = if id == j then a else f j

unfoldable pub bound_driver : Text → Option Text
bound_driver override =
    if override == vfio_ap
    then some vfio_ap
    else if override == []
    then some (bytes "cex4queue")
    else none

abbrev stored : Text → Text
stored text = if text == newline then [] else text

abbrev write_override_of : Text → Text → Exec Node IoError (Unit {0})
write_override_of id text n =
    if n.locked
    then (err failed, n)
    else (ok tt, record n { overrides = set id (stored text) n.overrides })

abbrev unbind_of : Text → Option Text → Exec Node IoError (Unit {0})
unbind_of id none n = (err not_exist, n)
unbind_of id (some d) n = (ok tt, record n { drivers = set id none n.drivers })

-- A matrix that cannot be read cannot be assigned either.
abbrev assigned : Result IoError Text → Result IoError (Unit {0})
assigned (ok text) = ok tt
assigned (err e) = err e

unfoldable pub write : FilePath → Text → Exec Node IoError (Unit {0})
unfolding bound_driver
write (_ ∷ []) id n = (
  ok tt,
  record n { drivers = set id (or_else (n.drivers id) (bound_driver (n.overrides id))) n.drivers },
)
write (_ ∷ uuid ∷ name ∷ []) text n = (assigned n.matrix, n)
write (_ ∷ _ ∷ id ∷ attr ∷ []) text n =
    if attr == bytes "driver_override" then write_override_of id text n else (ok tt, n)
write (_ ∷ _ ∷ id ∷ _ ∷ attr ∷ []) text n =
    if attr == bytes "unbind" then unbind_of id (n.drivers id) n else (ok tt, n)
write _ text n = (ok tt, n)

unfoldable pub read : FilePath → Exec Node IoError Text
read (_ ∷ _ ∷ id ∷ attr ∷ []) n =
    (if attr == bytes "driver_override" then ok (n.overrides id) else err not_exist, n)
read (_ ∷ uuid ∷ name ∷ []) n = (n.matrix, n)
read _ n = (err not_exist, n)

abbrev nothing : FilePath → Exec Node IoError (Unit {0})
nothing p n = (ok tt, n)

abbrev pub node_os : Os
node_os = record {
  World = Node;
  read_file = read;
  write_file = write;
  stat = nothing;
  read_dir = λ p n. (ok n.entries, n);
  read_link = λ p n. (ok (bytes "kernel" ∷ bytes "iommu_groups" ∷ bytes "7" ∷ []), n);
  remove = nothing;
  remove_all = nothing;
  mkdir_all = nothing;
  glob = λ p n. (ok n.override_files, n);
}

newline-ne-vfio_ap : (vfio_ap == newline) ≡ false
unfolding vfio_ap newline bytes k8s_cex_dra_driver.Prelude.text_beq
newline-ne-vfio_ap = refl

read_same : (p : FilePath) (n : Node) → (read p n).1 ≡ n
unfolding read
read_same [] n = refl
read_same (a ∷ []) n = refl
read_same (a ∷ b ∷ []) n = refl
read_same (a ∷ b ∷ c ∷ []) n = refl
read_same (a ∷ b ∷ c ∷ d ∷ []) n = refl
read_same (a ∷ b ∷ c ∷ d ∷ e ∷ p) n = refl

pub read_law :
    (p : FilePath) (n : Node) (id : Text)
    → ((read p n).1.overrides id ≡ n.overrides id) × ((read p n).1.drivers id ≡ n.drivers id)
read_law p n id = ground (arith, read_same p n)

pub set_marker_law :
    (apid apqi : Text) (n : Node) (id : Text)
    → let r = write (driver_override_path apid apqi) vfio_ap n in
      (r.1.overrides id
        ≡ (if is_ok r.0 && (queue_id apid apqi == id) then vfio_ap else n.overrides id))
      × (r.1.drivers id ≡ n.drivers id)
unfolding write driver_override_path
set_marker_law apid apqi n id =
    ground
      (arith, newline-ne-vfio_ap, text_beq_iff (bytes "driver_override") (bytes "driver_override"))

pub set_newline_law :
    (apid apqi : Text) (n : Node) (id : Text)
    → let r = write (driver_override_path apid apqi) newline n in
      (r.1.overrides id ≡ (if is_ok r.0 && (queue_id apid apqi == id) then [] else n.overrides id))
      × (r.1.drivers id ≡ n.drivers id)
unfolding write driver_override_path
set_newline_law apid apqi n id = ground (
  arith,
  text_beq_iff newline newline,
  text_beq_iff (bytes "driver_override") (bytes "driver_override"),
)

pub unbind_law :
    (apid apqi : Text) (n : Node) (id : Text)
    → let r = write (device_unbind_path apid apqi) (queue_id apid apqi) n in
      (r.1.overrides id ≡ n.overrides id)
      × (r.1.drivers id ≡ (if is_ok r.0 && (queue_id apid apqi == id) then none else n.drivers id))
unfolding write device_unbind_path
unbind_law apid apqi n id = ground (arith, text_beq_iff (bytes "unbind") (bytes "unbind"))

pub unbind_absent_law :
    (apid apqi : Text) (n : Node)
    → (write (device_unbind_path apid apqi) (queue_id apid apqi) n).0 ≡ err not_exist
    → n.drivers (queue_id apid apqi) ≡ none
unfolding write device_unbind_path
unbind_absent_law apid apqi n h = ground (arith, text_beq_iff (bytes "unbind") (bytes "unbind"))

pub spec_law :
    (root uid text : Text) (n : Node) (id : Text)
    → let n' = (write (spec_path root uid) text n).1 in
      (n'.overrides id ≡ n.overrides id) × (n'.drivers id ≡ n.drivers id)
unfolding write spec_path
spec_law root uid text n id = (refl, refl)

pub metadata_law :
    (dir uid request text : Text) (n : Node) (id : Text)
    → let n' = (write (metadata_path dir uid request) text n).1 in
      (n'.overrides id ≡ n.overrides id) × (n'.drivers id ≡ n.drivers id)
unfolding write claim_dir bytes k8s_cex_dra_driver.Prelude.text_beq
metadata_law dir uid request text n id = (refl, refl)

pub attribute_law :
    (uuid name text : Text) (n : Node) (id : Text)
    → let n' = (write (attribute_path uuid name) text n).1 in
      (n'.overrides id ≡ n.overrides id) × (n'.drivers id ≡ n.drivers id)
unfolding write attribute_path vfio_ap_matrix_path
attribute_law uuid name text n id = (refl, refl)

pub create_law :
    (uuid : Text) (n : Node) (id : Text)
    → let n' = (write mdev_create_path uuid n).1 in
      (n'.overrides id ≡ n.overrides id) × (n'.drivers id ≡ n.drivers id)
unfolding write mdev_create_path vfio_ap_matrix_path bytes k8s_cex_dra_driver.Prelude.text_beq
create_law uuid n id = (refl, refl)

pub probe_law :
    (apid apqi : Text) (n : Node) (id : Text)
    → let r = write drivers_probe_path (queue_id apid apqi) n in
      (r.1.overrides id ≡ n.overrides id)
      × (r.1.drivers id ≡ (
          if is_ok r.0 && (queue_id apid apqi == id)
          then or_else (n.drivers id) (bound_driver (n.overrides id))
          else n.drivers id))
unfolding write drivers_probe_path
probe_law apid apqi n id = ground (arith, text_beq_iff (queue_id apid apqi) id)

unfoldable pub node_kernel : Kernel node_os
node_kernel = record {
  override = λ n. n.overrides;
  driver = λ n. n.drivers;
  attach = bound_driver;
  read_file_same = read_law;
  read_dir_same = λ p n id. (refl, refl);
  glob_same = λ p n id. (refl, refl);
  stat_same = λ p n id. (refl, refl);
  remove_same = λ p n id. (refl, refl);
  remove_all_same = λ p n id. (refl, refl);
  read_link_same = λ p n id. (refl, refl);
  mkdir_all_same = λ p n id. (refl, refl);
  spec_same = spec_law;
  metadata_same = metadata_law;
  attribute_same = attribute_law;
  create_same = create_law;
  set_marker = set_marker_law;
  set_newline = set_newline_law;
  unbind_write = unbind_law;
  unbind_absent = unbind_absent_law;
  probe_write = probe_law;
}

-- Two queues on zcrypt, a third that is handed to vfio-ap, and one mdev that claims the third.
abbrev pub bus_overrides : Text → Text
bus_overrides id = if id == bytes "03.0042" then vfio_ap else []

abbrev pub bus_drivers : Text → Option Text
bus_drivers id = some (if id == bytes "03.0042" then vfio_ap else bytes "cex4queue")

abbrev pub queue_file : Text → Text → FilePath
queue_file apid apqi = driver_override_path apid apqi

abbrev pub bus : Node
bus = record {
  overrides = bus_overrides;
  drivers = bus_drivers;
  entries = record { name = bytes "6a1e"; is_dir = true } ∷ [];
  matrix = ok (bytes "03.0042\n");
  override_files = queue_file (bytes "03") (bytes "0042") ∷ [];
  locked = false;
}

abbrev pub locked_bus : Node
locked_bus = record bus { locked = true }

abbrev pub unreadable_bus : Node
unreadable_bus = record bus { matrix = err failed }
