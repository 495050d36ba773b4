-- ===== src/DeviceState/Guests/Rows.antt =====
-- What the reads of a mediated device tell of it.
use k8s_cex_dra_driver.Prelude.{Text, ◌≡◌, ◌∙◌, ap, arith}
use k8s_cex_dra_driver.Prelude.Exec.{ok}
use k8s_cex_dra_driver.Prelude.Strings.{bytes}
use k8s_cex_dra_driver.Os.{Os}
use k8s_cex_dra_driver.Mdev.{exists, read_matrix, parse_matrix, attribute_path}
use k8s_cex_dra_driver.Mdev.Matrix.{parse_matrix-print_matrix}
use k8s_cex_dra_driver.DeviceState.Guests.{Guests}

module _ (os : Os) (g : Guests os) (uid : Text) (w : os.World) where
  open g use {guest}

  pub exists_present : (exists os uid w).0 ≡ (guest w uid).present
  unfolding exists
  exists_present = g.stat_present uid w

  -- A matrix file that can be read gives the rows, in their order.
  pub read_matrix_rows :
      {content : Text}
      → (os.read_file (attribute_path uid (bytes "matrix")) w).0 ≡ ok content
      → (read_matrix os uid w).0 ≡ ok (guest w uid).rows
  unfolding read_matrix
  read_matrix_rows {content} f =
      let parsed : parse_matrix content ≡ ok (guest w uid).rows =
        ap parse_matrix (g.matrix_read uid content w f)
        ∙ parse_matrix-print_matrix (guest w uid).rows (g.rows_IsHex w uid) in
      ground arith
