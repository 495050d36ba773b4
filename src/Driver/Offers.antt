-- ===== src/Driver/Offers.antt =====
-- What a started driver offers, and finds again when the kubelet asks for it.
use k8s_cex_dra_driver.Prelude.{
  Text, List, [], ◌∷◌, ◌++◌, Bool, true, false, ◌||◌, map, Option, none, some, ℕ, ◌+◌, ◌≡◌, ◌⊎◌,
  inl, inr, refl, ◌∙◌, sym, ◌==◌, text_eq, length, length-append, arith,
}
use k8s_cex_dra_driver.Prelude.Exec.{Result, ok, err, Exec}
use k8s_cex_dra_driver.Prelude.Dict.{get}
use k8s_cex_dra_driver.Os.{Os}
use k8s_cex_dra_driver.Resource.{Device, Pool, DriverResources}
use k8s_cex_dra_driver.Sysfs.SysInfo.{MachineIdError}
use k8s_cex_dra_driver.ApScanner.{DevicesByCard, ScanError, scan}
use k8s_cex_dra_driver.ApScanner.Queue.{device_name}
use k8s_cex_dra_driver.ApScanner.Tracker.{new_mkvp_tracker}
use k8s_cex_dra_driver.ApScanner.Tracker.Keys.{IsFreeTracker}
use k8s_cex_dra_driver.DeviceState
use k8s_cex_dra_driver.DeviceState.{DeviceState}
use k8s_cex_dra_driver.DeviceState.Env.{Env}
use k8s_cex_dra_driver.DeviceState.Snapshot.{has_device}
use k8s_cex_dra_driver.DeviceState.Allocation.{
  Collected, not_allocatable, collect_result, add_queue,
}
use k8s_cex_dra_driver.DeviceState.Published.Scan.{scan-IsPublished}
use k8s_cex_dra_driver.DeviceState.Published.Pools.{in_slices, in_pools, scan-IsNodup}
use k8s_cex_dra_driver.Driver.{Driver}
use k8s_cex_dra_driver.Driver.Start
use k8s_cex_dra_driver.Driver.Start.{Config, initial, register, reconcile, begin, resolve}
use k8s_cex_dra_driver.Driver.Loop.{
  Reach, DeviceHealth, unknown, slice_health, pools_health, unknown_health_report,
}
use k8s_cex_dra_driver.Driver.Reachable.{IsSound, Holds, compare_and_update-IsSound, Reach-Holds}

new_tracker-IsFreeTracker : IsFreeTracker new_mkvp_tracker
unfolding IsFreeTracker get
new_tracker-IsFreeTracker apqn m e = ground arith

new-IsSound :
    (machine_id node_name driver_name cdi_root plugin_data_dir : Text)
    → IsSound machine_id (DeviceState.new node_name driver_name cdi_root plugin_data_dir)
unfolding DeviceState.new get in_pools
new-IsSound machine_id node_name driver_name cdi_root plugin_data_dir = record {
  found = λ name d e. ground arith;
  offered = λ name. refl;
}

-- A device that no pool offers is not found. Of one that is offered, `Prepare` adds the queue that the
-- device's name is made of, behind the machine identifier.
abbrev pub IsFoundIfOffered : Text → DeviceState → Text → Collected → Type 0
IsFoundIfOffered machine_id s name c =
    ((in_pools s.driver_resources name ≡ false)
      × (collect_result s.allocatable name c ≡ err (not_allocatable name)))
    ⊎ ((in_pools s.driver_resources name ≡ true)
        × (apid apqi : Text) × (name ≡ device_name machine_id apid apqi)
        × (length name ≡ length machine_id + 8)
        × (collect_result s.allocatable name c ≡ ok (add_queue apid apqi c)))

lookup-IsSound :
    (machine_id : Text) (s : DeviceState) (name : Text) (c : Collected)
    → IsSound machine_id s
    → IsFoundIfOffered machine_id s name c
unfolding collect_result device_name
lookup-IsSound machine_id s name c h = go (get name s.allocatable) refl
  where
    go : (o : Option Device) → get name s.allocatable ≡ o → IsFoundIfOffered machine_id s name c
    go none e = inl (ground (arith, h.offered name), ground arith)
    go (some d) e =
        let (named, (apid, apqi, queue, made, two, four)) = h.found name d e in
        let whole : name ≡ device_name machine_id apid apqi = sym named ∙ made in
        inr (
          ground (arith, h.offered name),
          apid,
          apqi,
          whole,
          rw whole (
              omega (
                arith,
                length-append machine_id (b'-' ∷ (apid ++ (b'-' ∷ apqi))),
                length-append apid (b'-' ∷ apqi),
              )),
          ground arith,
        )

-- The report names the device.
unfoldable pub reported : List DeviceHealth → Text → Bool
reported [] name = false
reported (h ∷ report) name = h.device_name == name || reported report name

reported-append :
    (xs ys : List DeviceHealth) (name : Text)
    → reported (xs ++ ys) name ≡ (reported xs name || reported ys name)
unfolding reported
reported-append [] ys name = refl
reported-append (h ∷ xs) ys name = ground (arith, reported-append xs ys name)

reported-slice :
    (pool : Text) (now : ℕ) (slice : List Device) (name : Text)
    → reported (map (unknown pool now) slice) name ≡ has_device slice name
unfolding reported has_device
reported-slice pool now [] name = refl
reported-slice pool now (d ∷ slice) name = ground (arith, reported-slice pool now slice name)

reported-slice_health :
    (pool : Text) (now : ℕ) (slices : Pool) (name : Text)
    → reported (slice_health pool now slices) name ≡ in_slices slices name
unfolding slice_health in_slices reported
reported-slice_health pool now [] name = refl
reported-slice_health pool now (slice ∷ slices) name = ground (
  arith,
  reported-append (map (unknown pool now) slice) (slice_health pool now slices) name,
  reported-slice pool now slice name,
  reported-slice_health pool now slices name,
)

reported-pools_health :
    (now : ℕ) (pools : DriverResources) (name : Text)
    → reported (pools_health now pools) name ≡ in_pools pools name
unfolding pools_health in_pools reported
reported-pools_health now [] name = refl
reported-pools_health now ((pool, slices) ∷ pools) name = ground (
  arith,
  reported-append (slice_health pool now slices) (pools_health now pools) name,
  reported-slice_health pool now slices name,
  reported-pools_health now pools name,
)

pub reported-unknown_health_report :
    (d : Driver) (now : ℕ) (name : Text)
    → reported (unknown_health_report d now) name ≡ in_pools d.state.driver_resources name
unfolding unknown_health_report
reported-unknown_health_report d now name = reported-pools_health now d.state.driver_resources name

module _ (os : Os) (env : Env os) {StartError PublishError : Type 0} (sha256_hex : Text → Text)
    (verbose : Bool) (start : Config → Exec os.World StartError (Unit {0}))
    (publish : DriverResources → Exec os.World PublishError (Unit {0})) where
  register_ok :
      (cfg : Config) (d e : Driver) (w w' : os.World)
      → register os sha256_hex verbose start publish cfg e w ≡ (ok d, w')
      → d ≡ e
  unfolding register
  register_ok cfg d e w w' h = ground arith

  initial-Holds :
      (cfg : Config) (id : Text) (devices : DevicesByCard) (w : os.World)
      → let r = scan os id new_mkvp_tracker w in
        r.0 ≡ ok devices → Holds id (initial os sha256_hex verbose start publish cfg id devices r.1)
  unfolding initial
  initial-Holds cfg id devices w e =
      let (p, t) = scan-IsPublished id os new_mkvp_tracker w new_tracker-IsFreeTracker in
      record {
        named = refl;
        tracker = t;
        sound =
            compare_and_update-IsSound sha256_hex id devices _ (p devices e)
              (scan-IsNodup os id new_mkvp_tracker w devices e)
              (new-IsSound id cfg.node_name cfg.driver_name cfg.cdi_root cfg.plugin_data_dir);
      }

  begin-Holds :
      (cfg : Config) (id : Text) (w w' : os.World) (d : Driver)
      → begin os sha256_hex verbose start publish cfg id w ≡ (ok d, w')
      → Holds id d
  unfolding begin
  begin-Holds cfg id w w' d e =
      let w0 = reconcile os verbose cfg w in go (scan os id new_mkvp_tracker w0).0 refl
    where
      go :
          (r : Result ScanError DevicesByCard)
          → (scan os id new_mkvp_tracker (reconcile os verbose cfg w)).0 ≡ r
          → Holds id d
      go (err x) f = absurd (ground arith)
      go (ok devices) f =
          let s = scan os id new_mkvp_tracker (reconcile os verbose cfg w) in
          let same : d ≡ initial os sha256_hex verbose start publish cfg id devices s.1 =
            register_ok cfg d _ s.2 w' (ground arith) in
          rw same (initial-Holds cfg id devices _ f)

  new-Holds :
      (cfg : Config) (w w' : os.World) (d : Driver)
      → Start.new os sha256_hex verbose start publish cfg w ≡ (ok d, w')
      → (id : Text) × Holds id d × ((resolve os cfg w).0 ≡ ok id)
  unfolding Start.new
  new-Holds cfg w w' d e = go (resolve os cfg w).0 refl
    where
      go :
          (r : Result MachineIdError Text)
          → (resolve os cfg w).0 ≡ r
          → (id : Text) × Holds id d × ((resolve os cfg w).0 ≡ ok id)
      go (err x) f = absurd (ground arith)
      go (ok id) f = (id, begin-Holds cfg id (resolve os cfg w).1 w' d (ground arith), f)

  -- Once `New` has succeeded, whatever cycles run, which claims the kubelet has prepared or unprepared
  -- and what else happens on the node: `Prepare` finds a device exactly if it is in a pool of the
  -- resources that the driver has recorded last for publication, whether or not their publication has
  -- succeeded. It then adds the queue that the device's name is made of, which is eight characters
  -- longer than the machine identifier, which `New` resolved. The health report names the devices of
  -- these pools, and no others.
  pub reachable_lookup :
      (now : os.World → ℕ) (cfg : Config) (w w' v : os.World) (d e : Driver) (name : Text)
      (c : Collected)
      → Start.new os sha256_hex verbose start publish cfg w ≡ (ok d, w')
      → Reach os env sha256_hex publish now (d, w') (e, v)
      → (id : Text) × ((resolve os cfg w).0 ≡ ok id)
        × IsFoundIfOffered id e.state name c
        × ((t : ℕ)
            → reported (unknown_health_report e t) name ≡ in_pools e.state.driver_resources name)
  reachable_lookup now cfg w w' v d e name c started r =
      let (id, h, same) = new-Holds cfg w w' d started in
      let k = Reach-Holds os env sha256_hex publish now id r h in
      let named : e.machine_id ≡ id = k.named in
      (
        id,
        same,
        rw (← named) (lookup-IsSound e.machine_id e.state name c k.sound),
        λ t. reported-unknown_health_report e t name,
      )
