-- ===== src/Sysfs/Masks.antt =====
-- internal/sysfs/masks.go: the masks of the adapters and domains that zcrypt controls.
use k8s_cex_dra_driver.Prelude.{Text, [], ◌∷◌}
use k8s_cex_dra_driver.Prelude.Exec.{Exec, pure, ◌>>=◌}
use k8s_cex_dra_driver.Prelude.Strings.{bytes, trim_space, without}
use k8s_cex_dra_driver.Os.{Os, FilePath, IoError}

unfoldable pub ap_mask_path : FilePath
ap_mask_path = bytes "/sys/bus/ap/apmask" ∷ []

unfoldable pub aq_mask_path : FilePath
aq_mask_path = bytes "/sys/bus/ap/aqmask" ∷ []

unfoldable pub normalize_mask : Text → Text
normalize_mask raw = without b'\n' (without b',' (trim_space raw))

unfoldable pub read_current_masks : (os : Os) → Exec os.World IoError (Text × Text)
read_current_masks os = do
  ap ← os.read_file ap_mask_path
  aq ← os.read_file aq_mask_path
  pure (normalize_mask ap, normalize_mask aq)
