-- ===== src/Binding/Mdevs.antt =====
-- The calls on a mediated device, none of which touches a queue.
use k8s_cex_dra_driver.Prelude.{Text, [], ◌∷◌, ◌++◌, arith}
use k8s_cex_dra_driver.Prelude.Strings.{bytes}
use k8s_cex_dra_driver.Os.{Os}
use k8s_cex_dra_driver.Mdev
use k8s_cex_dra_driver.Mdev.{exists, read_matrix, attribute_path, vfio_ap_matrix_path}
use k8s_cex_dra_driver.Binding.Kernel.{Kernel, SameQueue}

module _ (os : Os) (k : Kernel os) (id uuid : Text) where
  pub exists-Same : (w : os.World) → SameQueue os k id w (exists os uuid w).1
  unfolding exists
  exists-Same w = k.stat_same (vfio_ap_matrix_path ++ (uuid ∷ [])) w id

  pub destroy-Same : (w : os.World) → SameQueue os k id w (Mdev.destroy os uuid w).1
  unfolding Mdev.destroy
  destroy-Same w = ground (
    arith,
    exists-Same w,
    k.attribute_same uuid (bytes "remove") (bytes "1") (exists os uuid w).1 id,
  )

  pub read_matrix-Same : (w : os.World) → SameQueue os k id w (read_matrix os uuid w).1
  unfolding read_matrix
  read_matrix-Same w = ground (arith, k.read_file_same (attribute_path uuid (bytes "matrix")) w id)
