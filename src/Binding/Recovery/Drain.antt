-- ===== src/Binding/Recovery/Drain.antt =====
-- Which queues the drain touches.
use k8s_cex_dra_driver.Prelude.{
  Text, List, [], ◌∷◌, Bool, true, false, not, Option, none, some, ◌≡◌, refl, ap, ◌==◌, text_eq,
  nat_beq, contains, arith, ==→eq, Bool-cases, inl, inr,
}
use k8s_cex_dra_driver.Prelude.Strings.{cut, all}
use k8s_cex_dra_driver.Prelude.Strings.Laws.{cut-append, cut-eq_some}
use k8s_cex_dra_driver.Os.{Os, FilePath}
use k8s_cex_dra_driver.Mdev.{Apqn, apqn_eq}
use k8s_cex_dra_driver.Binding.{queue_id}
use k8s_cex_dra_driver.Binding.Kernel.{Kernel, SameQueue, SameQueue-trans}
use k8s_cex_dra_driver.Binding.Switch.{switch_to_zcrypt_other}
use k8s_cex_dra_driver.Binding.Recovery.{
  parse_apqn_from_override_path, base_of_dir, drain_queue, drain_path, drain_paths,
}

-- No dot in the adapter number, so that the name of the queue can be cut again.
abbrev pub HasNoDot : Text → Type 0
HasNoDot s = all (λ c. not (nat_beq c b'.')) s ≡ true

-- Names determine queues.
queue_id-injective :
    (a b c d : Text) → HasNoDot a → HasNoDot c → queue_id a b ≡ queue_id c d → (a ≡ c) × (b ≡ d)
queue_id-injective a b c d ha hc e =
    ground (arith, cut-append b'.' a b ha, cut-append b'.' c d hc, ap (cut b'.') e)

module _ (live : List Apqn) (q : Apqn) (dotless : HasNoDot q.apid)
    (claimed : contains live q ≡ true) where
  -- A queue that is not claimed has another name than one that is.
  queue_id_differs :
      (r : Apqn)
      → HasNoDot r.apid
      → contains live r ≡ false
      → (queue_id r.apid r.apqi == queue_id q.apid q.apqi) ≡ false
  queue_id_differs r dl free =
      elim (Bool-cases (queue_id r.apid r.apqi == queue_id q.apid q.apqi)) [
        | inr other ↦ other
        | inl same ↦
            let e : (r.apid ≡ q.apid) × (r.apqi ≡ q.apqi) =
              queue_id-injective r.apid r.apqi q.apid q.apqi dl dotless (==→eq same) in
            cc
      ]

  module _ (os : Os) (k : Kernel os) (verbose : Bool) where
    open k use {override, driver, read_file_same, read_dir_same, glob_same}

    abbrev Spares : os.World → os.World → Type 0
    Spares = SameQueue os k (queue_id q.apid q.apqi)

    drain_queue-Spares :
        (name apid apqi : Text) (w : os.World)
        → cut b'.' name ≡ some (apid, apqi)
        → Spares w (drain_queue os verbose live (some (apid, apqi)) w)
    drain_queue-Spares name apid apqi w e =
        let r : Apqn = record { apid = apid; apqi = apqi } in
        elim (Bool-cases (contains live r)) [
          | inl old ↦ rw old (refl, refl)
          | inr free ↦ rw free (
              switch_to_zcrypt_other os k apid apqi verbose w (queue_id q.apid q.apqi)
                (queue_id_differs r (cut-eq_some b'.' name apid apqi e).1 free))
        ]

    drain_cut-Spares :
        (name : Text) (r : Option (Text × Text)) (w : os.World)
        → cut b'.' name ≡ r
        → Spares w (drain_queue os verbose live r w)
    drain_cut-Spares name none w e = (refl, refl)
    drain_cut-Spares name (some (apid, apqi)) w e = drain_queue-Spares name apid apqi w e

    drain_path-Spares : (p : FilePath) (w : os.World) → Spares w (drain_path os verbose live p w)
    unfolding drain_path parse_apqn_from_override_path
    drain_path-Spares p w = ground (
      arith,
      read_file_same p w (queue_id q.apid q.apqi),
      drain_cut-Spares (base_of_dir p) (cut b'.' (base_of_dir p)) (os.read_file p w).1 refl,
    )

    pub drain_paths_spares :
        (ps : List FilePath) (w : os.World)
        → SameQueue os k (queue_id q.apid q.apqi) w (drain_paths os verbose live ps w)
    unfolding drain_paths
    drain_paths_spares [] w = (refl, refl)
    drain_paths_spares (p ∷ ps) w =
        SameQueue-trans os k {b = drain_path os verbose live p w} (drain_path-Spares p w)
          (drain_paths_spares ps (drain_path os verbose live p w))
