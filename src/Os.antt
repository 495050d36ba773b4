-- ===== src/Os.antt =====
-- The system calls that the driver makes through Go's `os` and `path/filepath`. The kernel behind
-- them is not part of the repository, so it is a parameter of every definition that calls it: a
-- world of any type, and calls that may answer and change it in any way. A call that only reads
-- hands back a world too, so whatever else runs on the node may change the world between calls.
use k8s_cex_dra_driver.Prelude.{Text, List, Bool}
use k8s_cex_dra_driver.Prelude.Exec.{Exec}

-- The arguments that the source gives to `filepath.Join`, or the parts of a path that it found.
abbrev pub FilePath : Type 0
FilePath = List Text

-- `not_exist` is an error for which `errors.Is(err, fs.ErrNotExist)` holds.
pub data IoError : Type 0 where
  not_exist : IoError
  failed : IoError

pub record DirEntry : Type 0 where
  pub name : Text
  pub is_dir : Bool

pub record Os : Type 1 where
  pub World : Type 0
  pub read_file : FilePath → Exec World IoError Text
  pub write_file : FilePath → Text → Exec World IoError (Unit {0})
  pub stat : FilePath → Exec World IoError (Unit {0})
  pub read_dir : FilePath → Exec World IoError (List DirEntry)
  pub read_link : FilePath → Exec World IoError FilePath
  pub remove : FilePath → Exec World IoError (Unit {0})
  pub remove_all : FilePath → Exec World IoError (Unit {0})
  pub mkdir_all : FilePath → Exec World IoError (Unit {0})
  pub glob : FilePath → Exec World IoError (List FilePath)
