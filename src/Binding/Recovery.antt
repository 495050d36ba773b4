-- ===== src/Binding/Recovery.antt =====
-- internal/binding/recovery.go: the drain of vfio-ap queues that no live mdev claims.
pub mod Drain
pub mod Live
pub mod Unreadable
use k8s_cex_dra_driver.Prelude.{
  Text, List, [], ◌∷◌, ◌++◌, Bool, true, false, not, Option, none, some, ◌==◌, text_eq, contains,
  insert, if◌then◌else◌,
}
use k8s_cex_dra_driver.Prelude.Exec.{Result, ok, err, Exec, pure, wrap, map_err, ◌>>=◌, ◌>>◌}
use k8s_cex_dra_driver.Prelude.Strings.{bytes, trim_space, cut}
use k8s_cex_dra_driver.Os.{Os, FilePath, DirEntry, IoError, not_exist, failed}
use k8s_cex_dra_driver.Mdev.{Apqn, apqn_eq, read_matrix, MatrixError, vfio_ap_matrix_path}
use k8s_cex_dra_driver.Binding.{ap_devices_path, vfio_ap, switch_to_zcrypt}

pub data DrainError : Type 0 where
  live_queues : IoError → DrainError
  glob_error : IoError → DrainError

unfoldable pub ap_queue_override_glob : FilePath
ap_queue_override_glob =
    ap_devices_path ++ (bytes "card*" ∷ bytes "*.*" ∷ bytes "driver_override" ∷ [])

-- `filepath.Base(filepath.Dir(p))`; a path of one part lies in ".".
unfoldable pub base_of_dir : FilePath → Text
base_of_dir (part ∷ _ ∷ []) = part
base_of_dir (part ∷ second ∷ third ∷ rest) = base_of_dir (second ∷ third ∷ rest)
base_of_dir _ = bytes "."

unfoldable pub parse_apqn_from_override_path : FilePath → Option (Text × Text)
unfolding base_of_dir
parse_apqn_from_override_path p = cut b'.' (base_of_dir p)

unfoldable pub insert_all : List Apqn → List Apqn → List Apqn
insert_all [] out = out
insert_all (row ∷ rows) out = insert_all rows (insert row out)

module _ (os : Os) where
  open os use {World, read_file, read_dir, glob}

  -- A matrix that cannot be read adds no queue; only the log line differs by the error.
  abbrev claimed_rows : Result MatrixError (List Apqn) → List Apqn → List Apqn
  claimed_rows (ok rows) out = insert_all rows out
  claimed_rows (err e) out = out

  unfoldable pub live_of_entries : List DirEntry → List Apqn → World → List Apqn × World
  unfolding insert_all
  live_of_entries [] out w = (out, w)
  live_of_entries (e ∷ entries) out w =
      let (rows, w') = (if e.is_dir then read_matrix os e.name w else (ok [], w)) in
      live_of_entries entries (if e.is_dir then claimed_rows rows out else out) w'

  abbrev pub live_of_listing : Result IoError (List DirEntry) → Exec World IoError (List Apqn)
  live_of_listing (ok entries) w = let (out, w') = live_of_entries entries [] w in (ok out, w')
  live_of_listing (err not_exist) w = (ok [], w)
  live_of_listing (err failed) w = (err failed, w)

  unfoldable pub live_apqns : Exec World IoError (List Apqn)
  unfolding live_of_entries
  live_apqns w = let (r, w') = read_dir vfio_ap_matrix_path w in live_of_listing r w'

  module _ (verbose : Bool) (live : List Apqn) where
    abbrev pub drain_queue : Option (Text × Text) → World → World
    drain_queue none w = w
    drain_queue (some (apid, apqi)) w =
        if contains live (record { apid = apid; apqi = apqi })
        then w
        else (switch_to_zcrypt os verbose apid apqi w).1

    abbrev pub drain_content : FilePath → Result IoError Text → World → World
    drain_content p (err e) w = w
    drain_content p (ok raw) w =
        if trim_space raw == vfio_ap then drain_queue (parse_apqn_from_override_path p) w else w

    -- The body of the loop: every error is logged, none is returned.
    unfoldable pub drain_path : FilePath → World → World
    drain_path p w = let (r, w') = read_file p w in drain_content p r w'

    unfoldable pub drain_paths : List FilePath → World → World
    unfolding drain_path
    drain_paths [] w = w
    drain_paths (p ∷ ps) w = drain_paths ps (drain_path p w)

  unfoldable pub drain_orphaned_vfio_ap : Bool → Exec World DrainError (Unit {0})
  unfolding live_apqns drain_paths
  drain_orphaned_vfio_ap verbose = do
    live ← wrap live_queues live_apqns
    matches ← wrap glob_error (glob ap_queue_override_glob)
    λ w. (ok tt, drain_paths verbose live matches w)
