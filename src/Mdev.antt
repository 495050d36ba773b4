-- ===== src/Mdev.antt =====
-- internal/mdev/mdev.go: mediated devices under /sys/devices/vfio_ap/matrix. Log lines are left out.
pub mod Matrix
use k8s_cex_dra_driver.Prelude.{
  Text, List, [], ◌∷◌, ◌++◌, Bool, true, false, ◌&&◌, Option, none, some, Eq, ◌==◌, text_eq, ◌≡◌,
  ◌↔◌, arith, text_beq, text_beq_iff, if◌then◌else◌,
}
use k8s_cex_dra_driver.Prelude.Exec.{Result, ok, err, Exec, pure, wrap, map_err, is_ok, ◌>>=◌}
use k8s_cex_dra_driver.Prelude.Strings.{bytes, trim_space, cut, split}
use k8s_cex_dra_driver.Os.{Os, FilePath, IoError}

pub record Apqn : Type 0 where
  pub apid : Text
  pub apqi : Text

abbrev pub apqn_beq : Apqn → Apqn → Bool
apqn_beq a b = text_beq a.apid b.apid && text_beq a.apqi b.apqi

pub apqn_beq_iff : (a b : Apqn) → (apqn_beq a b ≡ true) ↔ (a ≡ b)
apqn_beq_iff a b = ground (arith, text_beq_iff a.apid b.apid, text_beq_iff a.apqi b.apqi)

instance abbrev pub apqn_eq : Eq Apqn
apqn_eq = record { beq = apqn_beq; beq_iff = apqn_beq_iff }

-- Errors of `ReadMatrix`: that of the read, or a line without a dot.
pub data MatrixError : Type 0 where
  matrix_io : IoError → MatrixError
  invalid_line : Text → MatrixError

pub data MdevError : Type 0 where
  create_error destroy_error : IoError → MdevError
  assign_adapter_error assign_domain_error assign_control_domain_error : IoError → MdevError

unfoldable pub vfio_ap_matrix_path : FilePath
vfio_ap_matrix_path = bytes "/sys/devices/vfio_ap/matrix" ∷ []

unfoldable pub attribute_path : Text → Text → FilePath
attribute_path uuid name = vfio_ap_matrix_path ++ (uuid ∷ name ∷ [])

unfoldable pub mdev_create_path : FilePath
mdev_create_path =
    vfio_ap_matrix_path
    ++ (bytes "mdev_supported_types" ∷ bytes "vfio_ap-passthrough" ∷ bytes "create" ∷ [])

-- The loop of `ReadMatrix` over the lines of the file.
unfoldable pub parse_lines : List Text → List Apqn → Result MatrixError (List Apqn)
parse_lines [] out = ok out
parse_lines (raw ∷ lines) out =
    let line = trim_space raw in
    let skipped = parse_lines lines out in
    if line == [] then skipped else elim (cut b'.' line) [
      | none ↦ err (invalid_line line)
      | some (apid, apqi) ↦ parse_lines lines (out ++ (record { apid = apid; apqi = apqi } ∷ []))
    ]

unfoldable pub parse_matrix : Text → Result MatrixError (List Apqn)
unfolding parse_lines
parse_matrix content = parse_lines (split b'\n' content) []

module _ (os : Os) where
  open os use {World, read_file, write_file, stat}

  -- `Exists` answers a Bool, and no error.
  unfoldable pub exists : Text → World → Bool × World
  exists uuid w = let (r, w') = stat (vfio_ap_matrix_path ++ (uuid ∷ [])) w in (is_ok r, w')

  unfoldable pub read_matrix : Text → Exec World MatrixError (List Apqn)
  read_matrix uuid = do
    content ← wrap matrix_io (read_file (attribute_path uuid (bytes "matrix")))
    λ w. (parse_matrix content, w)

  unfoldable pub create : Text → Exec World MdevError (Unit {0})
  create uuid = wrap create_error (write_file mdev_create_path uuid)

  unfoldable pub destroy : Text → Exec World MdevError (Unit {0})
  unfolding exists
  destroy uuid w =
      let (found, w') = exists uuid w in
      if found
      then wrap destroy_error (write_file (attribute_path uuid (bytes "remove")) (bytes "1")) w'
      else (ok tt, w')

  unfoldable pub assign_adapter : Text → Text → Exec World MdevError (Unit {0})
  assign_adapter uuid adapter =
      wrap assign_adapter_error
        (write_file (attribute_path uuid (bytes "assign_adapter")) (bytes "0x" ++ adapter))

  unfoldable pub assign_domain : Text → Text → Exec World MdevError (Unit {0})
  assign_domain uuid domain =
      wrap assign_domain_error
        (write_file (attribute_path uuid (bytes "assign_domain")) (bytes "0x" ++ domain))

  unfoldable pub assign_control_domain : Text → Text → Exec World MdevError (Unit {0})
  assign_control_domain uuid domain =
      wrap assign_control_domain_error
        (write_file (attribute_path uuid (bytes "assign_control_domain")) (bytes "0x" ++ domain))
