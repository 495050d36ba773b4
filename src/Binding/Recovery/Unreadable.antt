-- ===== src/Binding/Recovery/Unreadable.antt =====
-- The drain where the matrix of an mdev cannot be read.
use k8s_cex_dra_driver.Prelude.{
  Text, [], ◌∷◌, Bool, true, some, ◌≡◌, text_eq, text_beq_iff, arith, contains,
}
use k8s_cex_dra_driver.Prelude.Exec.{ok, err}
use k8s_cex_dra_driver.Prelude.Strings.{trim_space}
use k8s_cex_dra_driver.Os.{Os, FilePath, DirEntry, failed}
use k8s_cex_dra_driver.Mdev.{matrix_io, read_matrix, vfio_ap_matrix_path}
use k8s_cex_dra_driver.Binding.{vfio_ap, switch_to_zcrypt}
use k8s_cex_dra_driver.Binding.Recovery.{
  drain_orphaned_vfio_ap, ap_queue_override_glob, parse_apqn_from_override_path,
}

-- If the only mdev is there and the read of its matrix fails with an error other than ENOENT, the
-- drain goes on without an error of its own and switches a marked queue back to zcrypt, although it
-- could not know whether that mdev claims the queue.
pub drain_of_unreadable_mdev :
    (os : Os) (verbose : Bool) (e : DirEntry) (p : FilePath) (apid apqi raw : Text)
    (w listed unread globbed read : os.World)
    → os.read_dir vfio_ap_matrix_path w ≡ (ok (e ∷ []), listed)
    → e.is_dir ≡ true
    → read_matrix os e.name listed ≡ (err (matrix_io failed), unread)
    → os.glob ap_queue_override_glob unread ≡ (ok (p ∷ []), globbed)
    → os.read_file p globbed ≡ (ok raw, read)
    → trim_space raw ≡ vfio_ap
    → parse_apqn_from_override_path p ≡ some (apid, apqi)
    → drain_orphaned_vfio_ap os verbose w ≡ (ok tt, (switch_to_zcrypt os verbose apid apqi read).1)
unfolding drain_orphaned_vfio_ap contains
drain_of_unreadable_mdev os verbose e p apid apqi raw w listed unread globbed read hd hdir hm hg hr
      ht hp =
    ground (arith, text_beq_iff (trim_space raw) vfio_ap)
