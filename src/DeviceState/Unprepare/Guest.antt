-- ===== src/DeviceState/Unprepare/Guest.antt =====
-- What `Unprepare` makes of the mediated devices.
use k8s_cex_dra_driver.Prelude.{
  Text, List, [], ◌∷◌, Bool, true, false, ◌≡◌, inl, inr, refl, ◌∙◌, ap, ◌==◌, ◌||◌, text_eq,
  Bool-cases, arith,
}
use k8s_cex_dra_driver.Prelude.Exec.{Result, ok, err, is_ok}
use k8s_cex_dra_driver.Os.{Os, FilePath, IoError}
use k8s_cex_dra_driver.Mdev.{Apqn, exists, attribute_path}
use k8s_cex_dra_driver.DeviceState.{DeviceState}
use k8s_cex_dra_driver.DeviceState.Env.{Env}
use k8s_cex_dra_driver.DeviceState.Quiet.{
  exists-quiet, read_matrix-quiet, claim_metadata_exists-quiet, delete_claim_spec-quiet,
  delete_claim_metadata-quiet,
}
use k8s_cex_dra_driver.Prelude.Strings.{bytes}
use k8s_cex_dra_driver.DeviceState.Guests.Rows.{exists_present, read_matrix_rows}
use k8s_cex_dra_driver.DeviceState.Guests.{Guest, Guests}
use k8s_cex_dra_driver.DeviceState.Guests.Switch.{rollback-guest}
use k8s_cex_dra_driver.DeviceState.Guests.Drain.{drain-guest}
use k8s_cex_dra_driver.DeviceState.Guests.Build.{destroy_ok}
use k8s_cex_dra_driver.DeviceState.Guests.Apart.{destroy-Leaves}
use k8s_cex_dra_driver.DeviceState.Unprepare.{was_vm, claimed_apqns, return_queues, unprepare}
use k8s_cex_dra_driver.DeviceState.Unprepare.Steps.{
  tested, spec_deleted, metadata_deleted, rows, rows_read, destroyed, unprepare_cases,
  unprepare_late,
}

module _ (os : Os) (g : Guests os) (env : Env os) (s : DeviceState) (claim_uid : Text)
    (w : os.World) where
  open g use {guest}

  was_vm-guest : guest (tested os env s claim_uid w) ≡ guest w
  unfolding was_vm
  was_vm-guest =
      let v = (exists os claim_uid w).1 in
      ground (
        arith,
        exists-quiet os guest g.apart claim_uid w,
        claim_metadata_exists-quiet os guest g.apart s.plugin_data_dir claim_uid v,
      )

  spec_deleted-guest : guest (spec_deleted os env s claim_uid w) ≡ guest w
  spec_deleted-guest =
      delete_claim_spec-quiet os guest g.apart s.cdi_root claim_uid _ ∙ was_vm-guest

  rows_read-guest : guest (rows_read os env s claim_uid w) ≡ guest w
  unfolding claimed_apqns
  rows_read-guest =
      let v = metadata_deleted os env s claim_uid w in
      let u = (exists os claim_uid v).1 in
      let before : guest v ≡ guest w =
        delete_claim_metadata-quiet os guest g.apart s.plugin_data_dir claim_uid _
        ∙ spec_deleted-guest in
      ground (
        arith,
        exists-quiet os guest g.apart claim_uid v,
        read_matrix-quiet os guest g.apart claim_uid u,
        before,
      )

  -- The rows that `Unprepare` reads of an mdev that is there and can be read.
  pub rows-guest :
      (guest w claim_uid).present ≡ true
      → ((v : os.World)
          → (guest v claim_uid).present ≡ true
          → is_ok (os.read_file (attribute_path claim_uid (bytes "matrix")) v).0 ≡ true)
      → rows os env s claim_uid w ≡ (guest w claim_uid).rows
  unfolding claimed_apqns
  rows-guest present readable = go (os.read_file matrix u).0 refl
    where
      matrix : FilePath
      matrix = attribute_path claim_uid (bytes "matrix")

      v : os.World
      v = metadata_deleted os env s claim_uid w

      u : os.World
      u = (exists os claim_uid v).1

      before : guest v ≡ guest w
      before =
          delete_claim_metadata-quiet os guest g.apart s.plugin_data_dir claim_uid _
          ∙ spec_deleted-guest

      same : guest u claim_uid ≡ guest w claim_uid
      same =
          ap (λ (f : Text → Guest). f claim_uid)
            (exists-quiet os guest g.apart claim_uid v ∙ before)

      there : (exists os claim_uid v).0 ≡ true
      there =
          exists_present os g claim_uid v
          ∙ ap (λ (f : Text → Guest). (f claim_uid).present) before
          ∙ present

      go :
          (r : Result IoError Text)
          → (os.read_file matrix u).0 ≡ r
          → rows os env s claim_uid w ≡ (guest w claim_uid).rows
      go (err e) f =
          absurd
            (let read = readable u (ap (λ (h : Guest). h.present) same ∙ present) in ground arith)
      go (ok content) f =
          let read = read_matrix_rows os g claim_uid u f in
          let found : rows os env s claim_uid w ≡ (guest u claim_uid).rows =
            ground (arith, there) in
          found ∙ ap (λ (h : Guest). h.rows) same

  pub rows-absent : (guest w claim_uid).present ≡ false → rows os env s claim_uid w ≡ []
  unfolding claimed_apqns
  rows-absent absent =
      let v = metadata_deleted os env s claim_uid w in
      let before : guest v ≡ guest w =
        delete_claim_metadata-quiet os guest g.apart s.plugin_data_dir claim_uid _
        ∙ spec_deleted-guest in
      let gone : (exists os claim_uid v).0 ≡ false =
        exists_present os g claim_uid v
        ∙ ap (λ (f : Text → Guest). (f claim_uid).present) before
        ∙ absent in
      ground (arith, gone)

  return_queues-guest :
      (vm : Bool) (queues : List Apqn) (v : os.World)
      → guest (return_queues os env s claim_uid vm queues v) ≡ guest v
  unfolding return_queues
  return_queues-guest vm [] v = ground (arith, drain-guest os g env.verbose v)
  return_queues-guest vm (q ∷ queues) v = rollback-guest os g env (q ∷ queues) v

  -- When `Unprepare` succeeds, the mdev of the claim is gone.
  pub unprepare_gone :
      (unprepare os env s claim_uid w).0 ≡ ok tt
      → (guest (unprepare os env s claim_uid w).1 claim_uid).present ≡ false
  unprepare_gone done = elim (Bool-cases (env.ended w || env.gave_up w)) [
    | inl late ↦ absurd (let e = unprepare_late os env s claim_uid w late in ground arith)
    | inr locked ↦ elim (unprepare_cases os env s claim_uid w locked) [
      | inl (e, same) ↦ absurd (ground arith)
      | inr (inl (e, same)) ↦ absurd (ground arith)
      | inr (inr (gone, same)) ↦ rw same (
          ap (λ (f : Text → Guest). (f claim_uid).present) (return_queues-guest _ _ _)
          ∙ destroy_ok os g claim_uid (rows_read os env s claim_uid w) gone)
    ]
  ]

  -- `Unprepare`, whether it fails or not, leaves the mdevs of other claims as they were.
  pub unprepare_other :
      (other : Text)
      → (claim_uid == other) ≡ false
      → guest (unprepare os env s claim_uid w).1 other ≡ guest w other
  unprepare_other other apart = elim (Bool-cases (env.ended w || env.gave_up w)) [
    | inl late ↦ rw (unprepare_late os env s claim_uid w late) refl
    | inr locked ↦ elim (unprepare_cases os env s claim_uid w locked) [
      | inl (e, same) ↦ rw same (at spec_deleted-guest)
      | inr (inl (e, same)) ↦ rw same destroyed-other
      | inr (inr (gone, same)) ↦ rw same (at (return_queues-guest _ _ _) ∙ destroyed-other)
    ]
  ]
    where
      at : {f h : Text → Guest} → f ≡ h → f other ≡ h other
      at e = ap (λ (f : Text → Guest). f other) e

      destroyed-other : guest (destroyed os env s claim_uid w) other ≡ guest w other
      destroyed-other =
          (destroy-Leaves os g claim_uid other apart).at (rows_read os env s claim_uid w)
          ∙ at rows_read-guest
