-- ===== src/Driver/Start.antt =====
-- internal/driver/driver.go, `New`: what the driver does before it serves the kubelet. The start of the
-- kubelet plugin library and its PublishResources are the parameters `start` and `publish`.
use k8s_cex_dra_driver.Prelude.{Text, [], Bool, false, Option, ℕ, ◌==◌, text_eq, if◌then◌else◌}
use k8s_cex_dra_driver.Prelude.Exec.{Result, ok, err, Exec, pure, wrap, ◌>>=◌, ◌>>◌}
use k8s_cex_dra_driver.Os.{Os, FilePath}
use k8s_cex_dra_driver.Mdev.{exists}
use k8s_cex_dra_driver.Binding.Recovery.{drain_orphaned_vfio_ap}
use k8s_cex_dra_driver.Cdi.{gc_stale_claim_specs}
use k8s_cex_dra_driver.Metadata.{gc_stale_claim_metadata}
use k8s_cex_dra_driver.Resource.{DriverResources}
use k8s_cex_dra_driver.Sysfs.SysInfo.{MachineIdError, machine_id}
use k8s_cex_dra_driver.ApScanner.{DevicesByCard, ScanError, scan}
use k8s_cex_dra_driver.ApScanner.Tracker.{MkvpTracker, new_mkvp_tracker}
use k8s_cex_dra_driver.DeviceState
use k8s_cex_dra_driver.DeviceState.{compare_and_update}
use k8s_cex_dra_driver.Driver.{Driver}

-- The fields that the driver itself reads; the others go to the kubelet plugin library.
pub record Config : Type 0 where
  pub driver_name : Text
  pub node_name : Text
  pub machine_id : Text
  pub sysinfo_path : FilePath
  pub heartbeat : Option ℕ
  pub plugin_data_dir : Text
  pub cdi_root : Text

pub data NewError (StartError PublishError : Type 0) : Type 0 where
  resolve_machine_id : MachineIdError → NewError StartError PublishError
  initial_scan : ScanError → NewError StartError PublishError
  start_plugin : StartError → NewError StartError PublishError
  publish_initial : PublishError → NewError StartError PublishError

module _ (os : Os) where
  open os use {World}

  -- The drain and both collections; what they cannot do is logged.
  unfoldable pub reconcile : Bool → Config → World → World
  reconcile verbose cfg w =
      let (_, w1) = drain_orphaned_vfio_ap os verbose w in
      let (_, w2) = gc_stale_claim_specs os cfg.cdi_root (exists os) w1 in
      let (_, w3) = gc_stale_claim_metadata os cfg.plugin_data_dir (exists os) w2 in w3

  unfoldable pub resolve : Config → Exec World MachineIdError Text
  resolve cfg = if cfg.machine_id == [] then machine_id os cfg.sysinfo_path else pure cfg.machine_id

  module _ {StartError PublishError : Type 0} (sha256_hex : Text → Text) (verbose : Bool)
      (start : Config → Exec World StartError (Unit {0}))
      (publish : DriverResources → Exec World PublishError (Unit {0})) where
    abbrev Started : Type 0
    Started = Exec World (NewError StartError PublishError) Driver

    -- The driver with its first snapshot.
    unfoldable pub initial : Config → Text → DevicesByCard → MkvpTracker → Driver
    initial cfg id devices t = record {
      state =
          (compare_and_update sha256_hex devices
            (DeviceState.new cfg.node_name cfg.driver_name cfg.cdi_root cfg.plugin_data_dir)).1;
      mkvp_tracker = t;
      scan_pending = false;
      heartbeat = cfg.heartbeat;
      machine_id = id;
    }

    unfoldable pub register : Config → Driver → Started
    register cfg d = do
      wrap start_plugin (start cfg)
      wrap publish_initial (publish d.state.driver_resources)
      pure d

    abbrev pub after_first_scan :
        Config
        → Text
        → Result ScanError DevicesByCard
        → MkvpTracker
        → World
        → Result (NewError StartError PublishError) Driver × World
    after_first_scan cfg id (err e) t w = (err (initial_scan e), w)
    after_first_scan cfg id (ok devices) t w = register cfg (initial cfg id devices t) w

    unfoldable pub begin : Config → Text → Started
    unfolding reconcile initial register
    begin cfg id w =
        let (r, t, w') = scan os id new_mkvp_tracker (reconcile verbose cfg w) in
        after_first_scan cfg id r t w'

    unfoldable pub new : Config → Started
    unfolding resolve begin
    new cfg = do id ← wrap resolve_machine_id (resolve cfg); begin cfg id
