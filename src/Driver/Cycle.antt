-- ===== src/Driver/Cycle.antt =====
-- What a scan cycle publishes, and what the kubelet's calls answer.
use k8s_cex_dra_driver.Prelude.{
  Text, List, [], ◌∷◌, Bool, true, false, ◌||◌, Option, none, some, ◌≡◌, refl, text_eq, contains,
  map, arith,
}
use k8s_cex_dra_driver.Prelude.Exec.{ok, err, Exec}
use k8s_cex_dra_driver.Prelude.Dict.{Dict, get, put, get-put}
use k8s_cex_dra_driver.Os.{Os}
use k8s_cex_dra_driver.Resource.{DriverResources, ResourceClaim}
use k8s_cex_dra_driver.ApScanner.{DevicesByCard, ScanError, scan}
use k8s_cex_dra_driver.ApScanner.Tracker.{MkvpTracker}
use k8s_cex_dra_driver.DeviceState.{DeviceState, compare_and_update}
use k8s_cex_dra_driver.DeviceState.Snapshot.{compare_and_update_twice}
use k8s_cex_dra_driver.DeviceState.Env.{Env}
use k8s_cex_dra_driver.Driver.{
  Driver, scan_error, publish_error, scan_and_publish, PrepareResult, prepare_resource_claim,
  prepare_each, prepare_resource_claims,
}

module _ (os : Os) where
  module _ {PublishError : Type 0} (sha256_hex : Text → Text)
      (publish : DriverResources → Exec os.World PublishError (Unit {0})) where
    -- If a cycle found a change and could not publish it, and the next scan finds the same devices, the
    -- next cycle publishes nothing and succeeds: the change stays unpublished.
    pub failed_publish_not_retried :
        (d : Driver) (w w1 w2 w3 : os.World) (t t' : MkvpTracker) (devices : DevicesByCard)
        (e : PublishError)
        → scan os d.machine_id d.mkvp_tracker w ≡ (ok devices, t, w1)
        → (compare_and_update sha256_hex devices d.state).0 ≡ true
        → publish (compare_and_update sha256_hex devices d.state).1.driver_resources w1
          ≡ (err e, w2)
        → scan os d.machine_id t w2 ≡ (ok devices, t', w3)
        → let (r, d', w') = scan_and_publish os sha256_hex publish d w in
          (r ≡ err (publish_error e))
          × (scan_and_publish os sha256_hex publish d' w'
              ≡ (ok tt, record d' { mkvp_tracker = t' }, w3))
    unfolding scan_and_publish
    failed_publish_not_retried d w w1 w2 w3 t t' devices e first changed refused second =
        (ground arith, ground (arith, compare_and_update_twice sha256_hex devices d.state))

    -- A scan that fails changes nothing that is published, or that `Prepare` looks up.
    pub failed_scan_keeps_state :
        (d : Driver) (w w1 : os.World) (t : MkvpTracker) (e : ScanError)
        → scan os d.machine_id d.mkvp_tracker w ≡ (err e, t, w1)
        → scan_and_publish os sha256_hex publish d w
          ≡ (err (scan_error e), record d { mkvp_tracker = t }, w1)
    unfolding scan_and_publish
    failed_scan_keeps_state d w w1 t e failed = ground arith

  module _ (env : Env os) where
    abbrev pub answered : Option (PrepareResult os env) → Bool
    answered none = false
    answered (some r) = true

    abbrev uids : List ResourceClaim → List Text
    uids claims = map (λ c. c.uid) claims

    prepare_each-answered :
        (s : DeviceState) (claims : List ResourceClaim) (results : Dict Text (PrepareResult os env))
        (w : os.World) (uid : Text)
        → answered (get uid (prepare_each os env s claims results w).0)
          ≡ (contains (uids claims) uid || answered (get uid results))
    unfolding prepare_each contains
    prepare_each-answered s [] results w uid = refl
    prepare_each-answered s (c ∷ claims) results w uid =
        let (r, w') = prepare_resource_claim os env s c w in
        ground (
          arith,
          prepare_each-answered s claims (put c.uid r results) w' uid,
          get-put c.uid uid r results,
        )

    -- A call of the kubelet answers for exactly the claims that it names, whichever of them fail.
    pub prepare_resource_claims-answered :
        (d : Driver) (claims : List ResourceClaim) (w : os.World) (uid : Text)
        → answered (get uid (prepare_resource_claims os env d claims w).0)
          ≡ contains (uids claims) uid
    unfolding prepare_resource_claims get
    prepare_resource_claims-answered d claims w uid =
        ground (arith, prepare_each-answered d.state claims [] w uid)
