-- ===== src/DeviceState/Guests/Drain.antt =====
-- The drain touches no mediated device.
use k8s_cex_dra_driver.Prelude.{
  Text, List, [], ◌∷◌, Bool, Option, none, some, ◌≡◌, refl, ◌∙◌, text_eq, Bool-cases, inl, inr,
  arith,
}
use k8s_cex_dra_driver.Prelude.Exec.{Result, ok, err}
use k8s_cex_dra_driver.Os.{Os, FilePath, DirEntry, IoError, not_exist, failed}
use k8s_cex_dra_driver.Mdev.{Apqn, apqn_eq, read_matrix, vfio_ap_matrix_path}
use k8s_cex_dra_driver.Binding.Recovery.{
  live_queues, glob_error, live_of_entries, live_of_listing, live_apqns, drain_queue, drain_content,
  drain_path, drain_paths, drain_orphaned_vfio_ap, ap_queue_override_glob,
  parse_apqn_from_override_path,
}
use k8s_cex_dra_driver.DeviceState.Quiet.{Leaves-call, Leaves-wrap, Leaves-bind, read_matrix-quiet}
use k8s_cex_dra_driver.DeviceState.Guests.{Guests}
use k8s_cex_dra_driver.DeviceState.Guests.Switch.{switch_to_zcrypt-Leaves}

module _ (os : Os) (g : Guests os) where
  live_of_entries-guest :
      (entries : List DirEntry) (out : List Apqn) (w : os.World)
      → g.guest (live_of_entries os entries out w).1 ≡ g.guest w
  unfolding live_of_entries
  live_of_entries-guest [] out w = refl
  live_of_entries-guest (e ∷ entries) out w = elim (Bool-cases e.is_dir) [
    | inl dir ↦ rw dir (
        live_of_entries-guest entries _ (read_matrix os e.name w).1
        ∙ read_matrix-quiet os g.guest g.apart e.name w)
    | inr other ↦ rw other (live_of_entries-guest entries out w)
  ]

  live_apqns-guest : (w : os.World) → g.guest (live_apqns os w).1 ≡ g.guest w
  unfolding live_apqns
  live_apqns-guest w = go (os.read_dir vfio_ap_matrix_path w).0 ∙ g.apart.read_dir _ w
    where
      go :
          (r : Result IoError (List DirEntry))
          → g.guest (live_of_listing os r (os.read_dir vfio_ap_matrix_path w).1).1
            ≡ g.guest (os.read_dir vfio_ap_matrix_path w).1
      go (ok entries) = live_of_entries-guest entries [] _
      go (err not_exist) = refl
      go (err failed) = refl

  module _ (verbose : Bool) (live : List Apqn) where
    drain_queue-guest :
        (q : Option (Text × Text)) (w : os.World)
        → g.guest (drain_queue os verbose live q w) ≡ g.guest w
    drain_queue-guest none w = refl
    drain_queue-guest (some (apid, apqi)) w =
        ground (arith, (switch_to_zcrypt-Leaves os g verbose apid apqi).at w)

    drain_content-guest :
        (p : FilePath) (r : Result IoError Text) (w : os.World)
        → g.guest (drain_content os verbose live p r w) ≡ g.guest w
    drain_content-guest p (err e) w = refl
    drain_content-guest p (ok raw) w =
        ground (arith, drain_queue-guest (parse_apqn_from_override_path p) w)

    drain_paths-guest :
        (ps : List FilePath) (w : os.World) → g.guest (drain_paths os verbose live ps w) ≡ g.guest w
    unfolding drain_paths drain_path
    drain_paths-guest [] w = refl
    drain_paths-guest (p ∷ ps) w =
        let (r, v) = os.read_file p w in
        drain_paths-guest ps _ ∙ drain_content-guest p r v ∙ g.apart.read_file p w

  pub drain-guest :
      (verbose : Bool) (w : os.World) → g.guest (drain_orphaned_vfio_ap os verbose w).1 ≡ g.guest w
  unfolding drain_orphaned_vfio_ap
  drain-guest verbose w =
      let drained =
        Leaves-bind g.guest
          (Leaves-wrap g.guest live_queues (Leaves-call g.guest (live_apqns os) live_apqns-guest))
          λ live.
            Leaves-bind g.guest
              (Leaves-wrap g.guest glob_error
                (Leaves-call g.guest (os.glob ap_queue_override_glob) (g.apart.glob _)))
              λ matches.
                Leaves-call g.guest (λ v. (ok tt, drain_paths os verbose live matches v))
                  (drain_paths-guest verbose live matches) in
      drained.at w
