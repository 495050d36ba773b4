-- ===== src/Driver/Reconcile.antt =====
-- What the reconciliation at the start leaves alone.
use k8s_cex_dra_driver.Prelude.{
  Text, List, [], ◌∷◌, ◌++◌, Bool, true, ◌≡◌, refl, text_eq, contains, arith,
}
use k8s_cex_dra_driver.Prelude.Exec.{Result, ok, err}
use k8s_cex_dra_driver.Prelude.Strings.{bytes}
use k8s_cex_dra_driver.Os.{Os, FilePath, DirEntry, IoError, not_exist, failed}
use k8s_cex_dra_driver.Mdev.{Apqn, exists, apqn_eq}
use k8s_cex_dra_driver.Binding.{queue_id}
use k8s_cex_dra_driver.Binding.Kernel.{Kernel, SameQueue, SameQueue-trans}
use k8s_cex_dra_driver.Binding.Mdevs.{exists-Same}
use k8s_cex_dra_driver.Binding.Recovery.{live_apqns, drain_orphaned_vfio_ap}
use k8s_cex_dra_driver.Binding.Recovery.Live.{live_apqns-same, drain_spares_live}
use k8s_cex_dra_driver.Cdi.{spec_prefix, gc_spec, gc_specs, gc_stale_claim_specs, claim_of_spec}
use k8s_cex_dra_driver.Metadata.{claim_dir, gc_entry, gc_entries, gc_stale_claim_metadata}
use k8s_cex_dra_driver.Driver.Start.{Config, reconcile}

module _ (os : Os) (k : Kernel os) (id : Text) where
  gc_spec-same : (p : FilePath) (w : os.World) → SameQueue os k id w (gc_spec os (exists os) p w)
  unfolding gc_spec
  gc_spec-same p w =
      let (alive, w') = exists os (claim_of_spec os p) w in
      ground (arith, exists-Same os k id (claim_of_spec os p) w, k.remove_same p w' id)

  gc_specs-same :
      (ps : List FilePath) (w : os.World) → SameQueue os k id w (gc_specs os (exists os) ps w)
  unfolding gc_specs
  gc_specs-same [] w = (refl, refl)
  gc_specs-same (p ∷ ps) w = SameQueue-trans os k (gc_spec-same p w) (gc_specs-same ps _)

  gc_stale_claim_specs-same :
      (cdi_root : Text) (w : os.World)
      → SameQueue os k id w (gc_stale_claim_specs os cdi_root (exists os) w).1
  unfolding gc_stale_claim_specs
  gc_stale_claim_specs-same cdi_root w = go (os.glob p w).0 refl
    where
      p : FilePath
      p = cdi_root ∷ (spec_prefix ++ bytes "*.json") ∷ []

      go :
          (r : Result IoError (List FilePath))
          → (os.glob p w).0 ≡ r
          → SameQueue os k id w (gc_stale_claim_specs os cdi_root (exists os) w).1
      go (err e) eq = ground (arith, k.glob_same p w id)
      go (ok ps) eq = ground (arith, k.glob_same p w id, gc_specs-same ps (os.glob p w).1)

  gc_entry-same :
      (dir : Text) (e : DirEntry) (w : os.World)
      → SameQueue os k id w (gc_entry os dir (exists os) e w)
  unfolding gc_entry
  gc_entry-same dir e w =
      let (alive, w') = exists os e.name w in
      ground (arith, exists-Same os k id e.name w, k.remove_all_same (claim_dir dir e.name) w' id)

  gc_entries-same :
      (dir : Text) (es : List DirEntry) (w : os.World)
      → SameQueue os k id w (gc_entries os dir (exists os) es w)
  unfolding gc_entries
  gc_entries-same dir [] w = (refl, refl)
  gc_entries-same dir (e ∷ es) w =
      SameQueue-trans os k (gc_entry-same dir e w) (gc_entries-same dir es _)

  gc_stale_claim_metadata-same :
      (dir : Text) (w : os.World)
      → SameQueue os k id w (gc_stale_claim_metadata os dir (exists os) w).1
  unfolding gc_stale_claim_metadata
  gc_stale_claim_metadata-same dir w = go (os.read_dir p w).0 refl
    where
      p : FilePath
      p = dir ∷ bytes "dra-device-metadata" ∷ []

      go :
          (r : Result IoError (List DirEntry))
          → (os.read_dir p w).0 ≡ r
          → SameQueue os k id w (gc_stale_claim_metadata os dir (exists os) w).1
      go (err not_exist) eq = ground (arith, k.read_dir_same p w id)
      go (err failed) eq = ground (arith, k.read_dir_same p w id)
      go (ok es) eq =
          ground (arith, k.read_dir_same p w id, gc_entries-same dir es (os.read_dir p w).1)

  drain-same_unlisted :
      (verbose : Bool) (e : IoError) (w : os.World)
      → (live_apqns os w).0 ≡ err e
      → SameQueue os k id w (drain_orphaned_vfio_ap os verbose w).1
  unfolding drain_orphaned_vfio_ap
  drain-same_unlisted verbose e w h = ground (arith, live_apqns-same os k id w)

module _ (os : Os) (k : Kernel os) where
  drain-same :
      (verbose : Bool) (w : os.World) (q : Apqn)
      → ((live : List Apqn) → (live_apqns os w).0 ≡ ok live → contains live q ≡ true)
      → SameQueue os k (queue_id q.apid q.apqi) w (drain_orphaned_vfio_ap os verbose w).1
  drain-same verbose w q claimed = go (live_apqns os w).0 refl
    where
      go :
          (r : Result IoError (List Apqn))
          → (live_apqns os w).0 ≡ r
          → SameQueue os k (queue_id q.apid q.apqi) w (drain_orphaned_vfio_ap os verbose w).1
      go (ok live) eq = drain_spares_live os k verbose w live q eq (claimed live eq)
      go (err e) eq = drain-same_unlisted os k (queue_id q.apid q.apqi) verbose e w eq

  -- `reconcile`, the drain and both collections, leaves the override and the driver of a queue
  -- alone if every set of claimed queues that the listing of the mediated devices returns at the
  -- start holds it; a listing that fails returns no set.
  pub reconcile_spares_live :
      (verbose : Bool) (cfg : Config) (w : os.World) (q : Apqn)
      → ((live : List Apqn) → (live_apqns os w).0 ≡ ok live → contains live q ≡ true)
      → SameQueue os k (queue_id q.apid q.apqi) w (reconcile os verbose cfg w)
  unfolding reconcile
  reconcile_spares_live verbose cfg w q claimed =
      let w1 = (drain_orphaned_vfio_ap os verbose w).1 in
      let id = queue_id q.apid q.apqi in
      SameQueue-trans os k (drain-same verbose w q claimed) (
        SameQueue-trans os k (gc_stale_claim_specs-same os k id cfg.cdi_root w1)
          (gc_stale_claim_metadata-same os k id cfg.plugin_data_dir _))
