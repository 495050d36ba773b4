-- ===== src/DeviceState/Unprepare/Matrix.antt =====
-- `Unprepare` and the matrix of the claim's mdev, as the vfio_ap module has it.
use k8s_cex_dra_driver.Prelude.{
  Text, List, ◌∷◌, true, false, ◌≡◌, ◌⊎◌, inl, inr, ◌∙◌, sym, subst, text_eq, contains, map, arith,
}
use k8s_cex_dra_driver.Prelude.Exec.{ok, is_ok}
use k8s_cex_dra_driver.Prelude.Strings.{bytes}
use k8s_cex_dra_driver.Os.{Os}
use k8s_cex_dra_driver.Mdev.{Apqn, exists, attribute_path}
use k8s_cex_dra_driver.Metadata.{claim_dir, claim_metadata_exists}
use k8s_cex_dra_driver.Binding.Kernel.{Kernel, SameQueue}
use k8s_cex_dra_driver.DeviceState.{DeviceState}
use k8s_cex_dra_driver.DeviceState.Env.{Env}
use k8s_cex_dra_driver.DeviceState.Rollback.{id_of, Lacks}
use k8s_cex_dra_driver.DeviceState.Guests.{Guests}
use k8s_cex_dra_driver.DeviceState.Guests.Rows.{exists_present}
use k8s_cex_dra_driver.DeviceState.Unprepare.{was_vm, unprepare}
use k8s_cex_dra_driver.DeviceState.Unprepare.Steps.{destroyed}
use k8s_cex_dra_driver.DeviceState.Unprepare.Guest.{rows-guest, rows-absent}
use k8s_cex_dra_driver.DeviceState.Unprepare.Queues.{unprepare_same}
use k8s_cex_dra_driver.DeviceState.Unprepare.Returned.{unreturned, IsReturned, unprepare-IsReleased}

module _ (os : Os) (g : Guests os) (k : Kernel os) (env : Env os) (s : DeviceState)
    (claim_uid id : Text) (w : os.World) where
  abbrev matrix : List Apqn
  matrix = (g.guest w claim_uid).rows

  -- The mdev is there, and its matrix file can be read whenever it is.
  abbrev pub IsReadable : Type 0
  IsReadable =
      ((g.guest w claim_uid).present ≡ true)
      × ((v : os.World)
          → (g.guest v claim_uid).present ≡ true
          → is_ok (os.read_file (attribute_path claim_uid (bytes "matrix")) v).0 ≡ true)

  -- The claim has neither an mdev nor a directory of metadata.
  abbrev pub IsBare : Type 0
  IsBare =
      ((g.guest w claim_uid).present ≡ false)
      × ((v : os.World) → is_ok (os.stat (claim_dir s.plugin_data_dir claim_uid) v).0 ≡ false)

  bare_was_vm : IsBare → (was_vm os env s claim_uid w).0 ≡ false
  unfolding was_vm claim_metadata_exists
  bare_was_vm (absent, clear) =
      ground (arith, exists_present os g claim_uid w ∙ absent, clear (exists os claim_uid w).1)

  -- `Unprepare`, whether it fails or not, leaves the override and the driver of every queue alone that
  -- is not in the matrix of the claim's mdev, if the mdev is there with some row and its matrix file can
  -- be read; and those of every queue, if the claim has neither an mdev nor a directory of metadata.
  pub unprepare_spares :
      (IsReadable × Lacks id matrix × ((q : Apqn) × (qs : List Apqn) × (matrix ≡ q ∷ qs))) ⊎ IsBare
      → SameQueue os k id w (unprepare os env s claim_uid w).1
  unprepare_spares (inl ((present, readable), lacking, (q, qs, e))) =
      let same = rows-guest os g env s claim_uid w present readable in
      unprepare_same os k env s claim_uid id w (subst (Lacks id) (sym same) lacking)
        (inr (q, qs, same ∙ e))
  unprepare_spares (inr (absent, clear)) =
      unprepare_same os k env s claim_uid id w
        (subst (Lacks id) (sym (rows-absent os g env s claim_uid w absent)) tt)
        (inl (bare_was_vm (absent, clear)))

  -- For every queue, if the mdev of the claim is there and its matrix file can be read: `Unprepare`
  -- either fails, and then it has not touched the queue, or it succeeds, and then the queue is not in
  -- the matrix, or its switch back is one of those that fail, or it has no override and the driver that
  -- the bus attaches without one.
  pub matrix_queue-IsReturned :
      IsReadable
      → let r = unprepare os env s claim_uid w in
        ((is_ok r.0 ≡ false) × SameQueue os k id w r.1)
        ⊎ ((r.0 ≡ ok tt)
            × ((contains (map id_of matrix) id ≡ false)
                ⊎ (contains (unreturned os k env matrix (destroyed os env s claim_uid w)) id ≡ true)
                ⊎ IsReturned os k env id r.1))
  matrix_queue-IsReturned (present, readable) =
      let same = rows-guest os g env s claim_uid w present readable in
      rw same at (unprepare-IsReleased os k env s claim_uid id w)
