-- ===== src/Driver.antt =====
-- internal/driver/driver.go: the scan cycle and the handlers of the kubelet's calls. Publishing is the
-- parameter `publish` (PublishResources of the kubelet plugin library), and the clock is `now`.
pub mod Cycle
pub mod Start
pub mod Loop
pub mod Reachable
pub mod Offers
pub mod Requests
pub mod Stream
pub mod Reconcile
pub mod Scans
pub mod Calls
pub mod Guests
pub mod Released
use k8s_cex_dra_driver.Prelude.{
  Option, ℕ, Text, List, [], ◌∷◌, Bool, true, false, text_eq, ◌==◌, map, if◌then◌else◌,
}
use k8s_cex_dra_driver.Prelude.Exec.{Result, ok, err, Exec, map_err, pure, ◌>>=◌}
use k8s_cex_dra_driver.Prelude.Dict.{Dict, put}
use k8s_cex_dra_driver.Os.{Os}
use k8s_cex_dra_driver.Health.{stamp}
use k8s_cex_dra_driver.Resource.{DriverResources, ResourceClaim, PreparedDevice}
use k8s_cex_dra_driver.ApScanner.{DevicesByCard, ScanError, scan}
use k8s_cex_dra_driver.ApScanner.Tracker.{MkvpTracker}
use k8s_cex_dra_driver.DeviceState.{DeviceState, compare_and_update}
use k8s_cex_dra_driver.DeviceState.Env.{Env}
use k8s_cex_dra_driver.DeviceState.Allocation.{PrepareError}
use k8s_cex_dra_driver.DeviceState.Prepare.{prepare}
use k8s_cex_dra_driver.DeviceState.Unprepare.{UnprepareError, unprepare}

-- What the scan loop and the handlers share; a nil heartbeat is `none`. `scan_pending` is the channel
-- of the trigger, which holds one request.
pub record Driver : Type 0 where
  pub state : DeviceState
  pub mkvp_tracker : MkvpTracker
  pub scan_pending : Bool
  pub heartbeat : Option ℕ
  pub machine_id : Text

pub data CycleError (PublishError : Type 0) : Type 0 where
  scan_error : ScanError → CycleError PublishError
  publish_error : PublishError → CycleError PublishError

-- The kubelet plugin library's device, which names a prepared one.
pub record ClaimDevice : Type 0 where
  pub requests : List Text
  pub pool_name : Text
  pub device_name : Text
  pub cdi_device_ids : List Text

unfoldable pub claim_device : PreparedDevice → ClaimDevice
claim_device pd = record {
  requests = pd.request_names;
  pool_name = pd.pool_name;
  device_name = pd.device_name;
  cdi_device_ids = pd.cdi_device_ids;
}

unfoldable pub trigger_scan : Driver → Driver
trigger_scan d = record d { scan_pending = true }

module _ (os : Os) where
  open os use {World}

  module _ {PublishError : Type 0} (sha256_hex : Text → Text)
      (publish : DriverResources → Exec World PublishError (Unit {0})) where
    abbrev pub publish_if :
        Bool → DeviceState → World → Result (CycleError PublishError) (Unit {0}) × World
    publish_if false s w = (ok tt, w)
    publish_if true s w =
        let (r, w') = publish s.driver_resources w in (map_err publish_error r, w')

    abbrev pub after_scan :
        Result ScanError DevicesByCard
        → Driver
        → World
        → Result (CycleError PublishError) (Unit {0}) × Driver × World
    after_scan (err e) d w = (err (scan_error e), d, w)
    after_scan (ok devices) d w =
        let (changed, s) = compare_and_update sha256_hex devices d.state in
        let (r, w') = publish_if changed s w in (r, record d { state = s }, w')

    unfoldable pub scan_and_publish :
        Driver → World → Result (CycleError PublishError) (Unit {0}) × Driver × World
    scan_and_publish d w =
        let (r, t, w') = scan os d.machine_id d.mkvp_tracker w in
        after_scan r (record d { mkvp_tracker = t }) w'

    -- An error of the cycle is logged.
    unfoldable pub run_scan_cycle : (World → ℕ) → Driver → World → Driver × World
    unfolding scan_and_publish
    run_scan_cycle now d w =
        let (r, d', w') = scan_and_publish d w in
        (record d' { heartbeat = stamp d'.heartbeat (now w') }, w')

  module _ (env : Env os) where
    -- An error of `Prepare` is passed on with the claim's UID in its message.
    unfoldable pub prepare_resource_claim :
        DeviceState → ResourceClaim → Exec World PrepareError (List ClaimDevice)
    prepare_resource_claim s claim = do
      prepared ← prepare os env s claim
      pure (map claim_device prepared)

    abbrev pub PrepareResult : Type 0
    PrepareResult = Result PrepareError (List ClaimDevice)

    -- The calls for the claims of a request, one after the other; a claim that fails has its error in
    -- the result, and the next is tried.
    unfoldable pub prepare_each :
        DeviceState
        → List ResourceClaim
        → Dict Text PrepareResult
        → World
        → Dict Text PrepareResult × World
    unfolding prepare_resource_claim
    prepare_each s [] results w = (results, w)
    prepare_each s (c ∷ claims) results w =
        let (r, w') = prepare_resource_claim s c w in prepare_each s claims (put c.uid r results) w'

    unfoldable pub prepare_resource_claims :
        Driver → List ResourceClaim → World → Dict Text PrepareResult × Driver × World
    unfolding prepare_each trigger_scan
    prepare_resource_claims d claims w =
        let (results, w') = prepare_each d.state claims [] w in (results, trigger_scan d, w')

    unfoldable pub unprepare_resource_claim :
        DeviceState → Text → Exec World UnprepareError (Unit {0})
    unprepare_resource_claim s uid = unprepare os env s uid

    abbrev pub UnprepareResult : Type 0
    UnprepareResult = Result UnprepareError (Unit {0})

    unfoldable pub unprepare_each :
        DeviceState
        → List Text
        → Dict Text UnprepareResult
        → World
        → Dict Text UnprepareResult × World
    unfolding unprepare_resource_claim
    unprepare_each s [] results w = (results, w)
    unprepare_each s (uid ∷ claims) results w =
        let (r, w') = unprepare_resource_claim s uid w in
        unprepare_each s claims (put uid r results) w'

    unfoldable pub unprepare_resource_claims :
        Driver → List Text → World → Dict Text UnprepareResult × Driver × World
    unfolding unprepare_each trigger_scan
    unprepare_resource_claims d claims w =
        let (results, w') = unprepare_each d.state claims [] w in (results, trigger_scan d, w')
