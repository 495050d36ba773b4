-- ===== src/Driver/Loop.antt =====
-- internal/driver/driver.go: the driver between its start and its end, as the steps of the scan loop
-- and of the kubelet's calls; and what it tells the kubelet of the devices' health.
use k8s_cex_dra_driver.Prelude.{
  Text, List, [], ◌∷◌, ◌++◌, Bool, true, false, not, ◌&&◌, Option, none, some, ℕ, ◌≡◌, map, text_eq,
  if◌then◌else◌,
}
use k8s_cex_dra_driver.Prelude.Exec.{Exec}
use k8s_cex_dra_driver.Os.{Os}
use k8s_cex_dra_driver.Resource.{Device, Pool, DriverResources, ResourceClaim}
use k8s_cex_dra_driver.DeviceState.Env.{Env}
use k8s_cex_dra_driver.Driver.{
  Driver, run_scan_cycle, prepare_resource_claims, unprepare_resource_claims,
}

module _ (os : Os) (env : Env os) {PublishError : Type 0} (sha256_hex : Text → Text)
    (publish : DriverResources → Exec os.World PublishError (Unit {0})) (now : os.World → ℕ) where
  -- The driver and the node around it.
  abbrev pub Site : Type 0
  Site = Driver × os.World

  abbrev pub site : {A : Type 0} → A × Driver × os.World → Site
  site (answer, d, w) = (d, w)

  -- What the `select` of the scan loop may choose, the calls of the kubelet, and all else that happens
  -- on the node. A triggered cycle takes the request.
  pub data Step : Site → Site → Type 0 where
    tick : (d : Driver) (w : os.World) → Step (d, w) (run_scan_cycle os sha256_hex publish now d w)
    triggered :
        (d : Driver) (w : os.World)
        → d.scan_pending ≡ true
        → Step
            (d, w)
            (run_scan_cycle os sha256_hex publish now (record d { scan_pending = false }) w)
    prepared :
        (d : Driver) (w : os.World) (claims : List ResourceClaim)
        → Step (d, w) (site (prepare_resource_claims os env d claims w))
    unprepared :
        (d : Driver) (w : os.World) (claims : List Text)
        → Step (d, w) (site (unprepare_resource_claims os env d claims w))
    elsewhere : (d : Driver) (w w' : os.World) → Step (d, w) (d, w')

  pub data Reach (s : Site) : Site → Type 0 where
    here : Reach s s
    next : {t u : Site} → Reach s t → Step t u → Reach s u

-- A fatal background error ends the driver: the cause that the context is cancelled with.
unfoldable pub handle_error : {E : Type 0} → (E → Bool) → Bool → E → Option E
handle_error recoverable has_cancel e = if not (recoverable e) && has_cancel then some e else none

pub record DeviceHealth : Type 0 where
  pub pool_name : Text
  pub device_name : Text
  pub last_updated : ℕ

abbrev pub unknown : Text → ℕ → Device → DeviceHealth
unknown pool now d = record { pool_name = pool; device_name = d.name; last_updated = now }

unfoldable pub slice_health : Text → ℕ → Pool → List DeviceHealth
slice_health pool now [] = []
slice_health pool now (slice ∷ slices) =
    map (unknown pool now) slice ++ slice_health pool now slices

unfoldable pub pools_health : ℕ → DriverResources → List DeviceHealth
unfolding slice_health
pools_health now [] = []
pools_health now ((pool, slices) ∷ pools) = slice_health pool now slices ++ pools_health now pools

-- Every published device, with a health that is not known.
unfoldable pub unknown_health_report : Driver → ℕ → List DeviceHealth
unfolding pools_health
unknown_health_report d now = pools_health now d.state.driver_resources
