-- ===== src/Binding/Kernel.antt =====
-- What the AP bus documents of `driver_override`, `unbind` and `drivers_probe`. A queue goes by its
-- name on the bus, `<apid>.<apqi>`. Nobody else rebinds queues while the driver runs.
use k8s_cex_dra_driver.Prelude.{
  Text, [], Bool, ◌&&◌, ◌||◌, true, false, Option, none, some, ◌≡◌, ◌∙◌, ap, ◌==◌, text_eq,
  if◌then◌else◌,
}
use k8s_cex_dra_driver.Prelude.Exec.{err, is_ok}
use k8s_cex_dra_driver.Os.{Os, FilePath, not_exist}
use k8s_cex_dra_driver.Cdi.{spec_path}
use k8s_cex_dra_driver.DeviceState.Quiet.{Quiet, metadata_path}
use k8s_cex_dra_driver.Mdev.{attribute_path, mdev_create_path}
use k8s_cex_dra_driver.Binding.{
  queue_id, driver_override_path, device_unbind_path, drivers_probe_path, vfio_ap, newline,
}

abbrev pub or_else : Option Text → Option Text → Option Text
or_else none other = other
or_else (some d) other = some d

pub record Kernel (os : Os) : Type 0 where
  -- The override that is set on a queue, and the driver that it is bound to.
  pub override : os.World → Text → Text
  pub driver : os.World → Text → Option Text
  -- The driver, if any, that the bus binds to an unbound queue with this override.
  pub attach : Text → Option Text
  pub read_file_same :
      (p : FilePath) (w : os.World) (id : Text)
      → (override (os.read_file p w).1 id ≡ override w id)
        × (driver (os.read_file p w).1 id ≡ driver w id)
  pub read_dir_same :
      (p : FilePath) (w : os.World) (id : Text)
      → (override (os.read_dir p w).1 id ≡ override w id)
        × (driver (os.read_dir p w).1 id ≡ driver w id)
  pub glob_same :
      (p : FilePath) (w : os.World) (id : Text)
      → (override (os.glob p w).1 id ≡ override w id) × (driver (os.glob p w).1 id ≡ driver w id)
  -- The mediated devices and the files of the plugin lie beside the bus.
  pub stat_same :
      (p : FilePath) (w : os.World) (id : Text)
      → (override (os.stat p w).1 id ≡ override w id) × (driver (os.stat p w).1 id ≡ driver w id)
  pub remove_same :
      (p : FilePath) (w : os.World) (id : Text)
      → (override (os.remove p w).1 id ≡ override w id)
        × (driver (os.remove p w).1 id ≡ driver w id)
  pub remove_all_same :
      (p : FilePath) (w : os.World) (id : Text)
      → (override (os.remove_all p w).1 id ≡ override w id)
        × (driver (os.remove_all p w).1 id ≡ driver w id)
  pub read_link_same :
      (p : FilePath) (w : os.World) (id : Text)
      → (override (os.read_link p w).1 id ≡ override w id)
        × (driver (os.read_link p w).1 id ≡ driver w id)
  pub mkdir_all_same :
      (p : FilePath) (w : os.World) (id : Text)
      → (override (os.mkdir_all p w).1 id ≡ override w id)
        × (driver (os.mkdir_all p w).1 id ≡ driver w id)
  pub spec_same :
      (root uid text : Text) (w : os.World) (id : Text)
      → let w' = (os.write_file (spec_path root uid) text w).1 in
        (override w' id ≡ override w id) × (driver w' id ≡ driver w id)
  pub metadata_same :
      (dir uid request text : Text) (w : os.World) (id : Text)
      → let w' = (os.write_file (metadata_path dir uid request) text w).1 in
        (override w' id ≡ override w id) × (driver w' id ≡ driver w id)
  pub attribute_same :
      (uuid name text : Text) (w : os.World) (id : Text)
      → let w' = (os.write_file (attribute_path uuid name) text w).1 in
        (override w' id ≡ override w id) × (driver w' id ≡ driver w id)
  pub create_same :
      (uuid : Text) (w : os.World) (id : Text)
      → let w' = (os.write_file mdev_create_path uuid w).1 in
        (override w' id ≡ override w id) × (driver w' id ≡ driver w id)
  -- A write that fails changes nothing.
  pub set_marker :
      (apid apqi : Text) (w : os.World) (id : Text)
      → let r = os.write_file (driver_override_path apid apqi) vfio_ap w in
        (override r.1 id
          ≡ (if is_ok r.0 && (queue_id apid apqi == id) then vfio_ap else override w id))
        × (driver r.1 id ≡ driver w id)
  pub set_newline :
      (apid apqi : Text) (w : os.World) (id : Text)
      → let r = os.write_file (driver_override_path apid apqi) newline w in
        (override r.1 id ≡ (if is_ok r.0 && (queue_id apid apqi == id) then [] else override w id))
        × (driver r.1 id ≡ driver w id)
  pub unbind_write :
      (apid apqi : Text) (w : os.World) (id : Text)
      → let r = os.write_file (device_unbind_path apid apqi) (queue_id apid apqi) w in
        (override r.1 id ≡ override w id)
        × (driver r.1 id ≡ (if is_ok r.0 && (queue_id apid apqi == id) then none else driver w id))
  pub unbind_absent :
      (apid apqi : Text) (w : os.World)
      → (os.write_file (device_unbind_path apid apqi) (queue_id apid apqi) w).0 ≡ err not_exist
      → driver w (queue_id apid apqi) ≡ none
  pub probe_write :
      (apid apqi : Text) (w : os.World) (id : Text)
      → let r = os.write_file drivers_probe_path (queue_id apid apqi) w in
        (override r.1 id ≡ override w id)
        × (driver r.1 id ≡ (
            if is_ok r.0 && (queue_id apid apqi == id)
            then or_else (driver w id) (attach (override w id))
            else driver w id))

abbrev pub is_some : Option Text → Bool
is_some none = false
is_some (some d) = true

pair : {A B : Type 0} {a a' : A} {b b' : B} → (a ≡ a') × (b ≡ b') → ◌≡◌ {A = A × B} (a, b) (a', b')
pair (p, q) = λ i. (p i, q i)

module _ (os : Os) (k : Kernel os) where
  open k use {override, driver}

  -- A queue that some pool or recovery path sees: it has a driver, or it carries the drain's marker.
  unfoldable pub is_tracked : os.World → Text → Bool
  is_tracked w id = is_some (driver w id) || override w id == vfio_ap

  -- The override and the driver of the queue are what they were.
  abbrev pub SameQueue : Text → os.World → os.World → Type 0
  SameQueue id w w' = (override w' id ≡ override w id) × (driver w' id ≡ driver w id)

  -- The override and the driver of one queue.
  abbrev pub queue_at : Text → os.World → Text × Option Text
  queue_at id w = (override w id, driver w id)

  pub queue_at-Quiet : (id : Text) → Quiet os (queue_at id)
  queue_at-Quiet id = record {
    read_file = λ p w. pair (k.read_file_same p w id);
    stat = λ p w. pair (k.stat_same p w id);
    read_dir = λ p w. pair (k.read_dir_same p w id);
    read_link = λ p w. pair (k.read_link_same p w id);
    glob = λ p w. pair (k.glob_same p w id);
    remove = λ p w. pair (k.remove_same p w id);
    remove_all = λ p w. pair (k.remove_all_same p w id);
    mkdir_all = λ p w. pair (k.mkdir_all_same p w id);
    write_spec = λ root uid text w. pair (k.spec_same root uid text w id);
    write_metadata = λ dir uid request text w. pair (k.metadata_same dir uid request text w id);
  }

  pub SameQueue-of :
      (id : Text) (w w' : os.World) → queue_at id w' ≡ queue_at id w → SameQueue id w w'
  SameQueue-of id w w' e =
      (ap (λ (p : Text × Option Text). p.0) e, ap (λ (p : Text × Option Text). p.1) e)

  pub of_SameQueue :
      (id : Text) (w w' : os.World) → SameQueue id w w' → queue_at id w' ≡ queue_at id w
  of_SameQueue id w w' h = pair h

  pub SameQueue-trans :
      {id : Text} {a b c : os.World} → SameQueue id a b → SameQueue id b c → SameQueue id a c
  SameQueue-trans (o, d) (o', d') = (o' ∙ o, d' ∙ d)
