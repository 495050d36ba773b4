-- ===== src/Driver/Reachable.antt =====
-- What holds from the start of the driver on, through any cycles and calls.
use k8s_cex_dra_driver.Prelude.{
  Text, [], false, ℕ, ◌≡◌, inl, inr, refl, ◌∙◌, sym, text_eq, IsNodup, Bool-cases, arith,
}
use k8s_cex_dra_driver.Prelude.Exec.{Result, ok, err, Exec}
use k8s_cex_dra_driver.Prelude.Dict.{get}
use k8s_cex_dra_driver.Os.{Os}
use k8s_cex_dra_driver.Resource.{DriverResources}
use k8s_cex_dra_driver.ApScanner.{DevicesByCard, ScanError, scan}
use k8s_cex_dra_driver.ApScanner.Tracker.Keys.{IsFreeTracker}
use k8s_cex_dra_driver.DeviceState.{DeviceState, compare_and_update, allocatable_of, pools_of}
use k8s_cex_dra_driver.DeviceState.Env.{Env}
use k8s_cex_dra_driver.DeviceState.Snapshot.{is_there, compare_and_update-scanned}
use k8s_cex_dra_driver.DeviceState.Published.Scan.{AreCards, scan-IsPublished}
use k8s_cex_dra_driver.DeviceState.Published.Lookup.{IsFound, allocatable_of-IsFound}
use k8s_cex_dra_driver.DeviceState.Published.Pools.{keys, in_pools, pools_of-scanned, scan-IsNodup}
use k8s_cex_dra_driver.Driver.{
  Driver, trigger_scan, scan_and_publish, run_scan_cycle, prepare_resource_claims,
  unprepare_resource_claims,
}
use k8s_cex_dra_driver.Driver.Loop.{
  Site, Step, tick, triggered, prepared, unprepared, elsewhere, Reach, here, next,
}

-- `Prepare` finds exactly the devices of the recorded pools, each under its name and with the numbers
-- of its queue.
pub record IsSound (machine_id : Text) (s : DeviceState) : Type 0 where
  pub found : IsFound machine_id s.allocatable
  pub offered : (name : Text) → is_there (get name s.allocatable) ≡ in_pools s.driver_resources name

pub record Holds (id : Text) (d : Driver) : Type 0 where
  pub named : d.machine_id ≡ id
  pub tracker : IsFreeTracker d.mkvp_tracker
  pub sound : IsSound d.machine_id d.state

pub compare_and_update-IsSound :
    (sha256_hex : Text → Text) (machine_id : Text) (cards : DevicesByCard) (s : DeviceState)
    → AreCards machine_id cards
    → IsNodup (keys cards)
    → IsSound machine_id s
    → IsSound machine_id (compare_and_update sha256_hex cards s).1
unfolding compare_and_update
compare_and_update-IsSound sha256_hex machine_id cards s p u h =
    elim (Bool-cases (compare_and_update sha256_hex cards s).0) [
      | inr same ↦ let e : (compare_and_update sha256_hex cards s).1 ≡ s = ground arith in rw e h
      | inl changed ↦
          let stored : (compare_and_update sha256_hex cards s).1.allocatable
              ≡ allocatable_of cards [] =
            ground arith in
          let pools : (compare_and_update sha256_hex cards s).1.driver_resources
              ≡ pools_of s.node_name cards [] =
            ground arith in
          record {
            found = rw stored (
                allocatable_of-IsFound machine_id cards [] p (λ n x f. unfold get in ground arith));
            offered = λ name.
                compare_and_update-scanned sha256_hex cards s name changed
                ∙ sym (pools_of-scanned s.node_name cards name u)
                ∙ sym (rw pools refl);
          }
    ]

module _ (os : Os) (env : Env os) {PublishError : Type 0} (sha256_hex : Text → Text)
    (publish : DriverResources → Exec os.World PublishError (Unit {0})) (now : os.World → ℕ)
    (id : Text) where
  scan_and_publish-Holds :
      (d : Driver) (w : os.World)
      → Holds id d
      → let (r, d', w') = scan_and_publish os sha256_hex publish d w in
        Holds id d' × (d'.scan_pending ≡ d.scan_pending)
  unfolding scan_and_publish
  scan_and_publish-Holds d w h =
      go (scan os d.machine_id d.mkvp_tracker w).0 refl
        (scan-IsPublished d.machine_id os d.mkvp_tracker w h.tracker)
    where
      go :
          (r : Result ScanError DevicesByCard)
          → (scan os d.machine_id d.mkvp_tracker w).0 ≡ r
          → ((cards : DevicesByCard)
              → (scan os d.machine_id d.mkvp_tracker w).0 ≡ ok cards
              → AreCards d.machine_id cards)
            × IsFreeTracker (scan os d.machine_id d.mkvp_tracker w).1
          → let (r, d', w') = scan_and_publish os sha256_hex publish d w in
            Holds id d' × (d'.scan_pending ≡ d.scan_pending)
      go (err e) f (p, t) = rw f (record { named = h.named; tracker = t; sound = h.sound }, refl)
      go (ok cards) f (p, t) = rw f (
        record {
          named = h.named;
          tracker = t;
          sound =
              compare_and_update-IsSound sha256_hex d.machine_id cards d.state (p cards f)
                (scan-IsNodup os d.machine_id d.mkvp_tracker w cards f) h.sound;
        },
        refl,
      )

  run_scan_cycle-Holds :
      (d : Driver) (w : os.World)
      → Holds id d
      → Holds id (run_scan_cycle os sha256_hex publish now d w).0
  unfolding run_scan_cycle
  run_scan_cycle-Holds d w h =
      let (k, _) = scan_and_publish-Holds d w h in
      record { named = k.named; tracker = k.tracker; sound = k.sound }

  Step-Holds :
      {s t : Site os env sha256_hex publish now}
      → Step os env sha256_hex publish now s t
      → Holds id s.0
      → Holds id t.0
  unfolding prepare_resource_claims unprepare_resource_claims trigger_scan
  Step-Holds (tick d w) h = run_scan_cycle-Holds d w h
  Step-Holds (triggered d w pending) h =
      run_scan_cycle-Holds (record d { scan_pending = false }) w
        (record { named = h.named; tracker = h.tracker; sound = h.sound })
  Step-Holds (prepared d w claims) h = record {
    named = h.named;
    tracker = h.tracker;
    sound = h.sound;
  }
  Step-Holds (unprepared d w claims) h = record {
    named = h.named;
    tracker = h.tracker;
    sound = h.sound;
  }
  Step-Holds (elsewhere d w w') h = h

  pub Reach-Holds :
      {s t : Site os env sha256_hex publish now}
      → Reach os env sha256_hex publish now s t
      → Holds id s.0
      → Holds id t.0
  Reach-Holds here h = h
  Reach-Holds (next r x) h = Step-Holds x (Reach-Holds r h)
