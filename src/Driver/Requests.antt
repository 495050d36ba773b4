-- ===== src/Driver/Requests.antt =====
-- What becomes of the requests for a scan, and what a cycle means for the liveness probe.
use k8s_cex_dra_driver.Prelude.{
  Text, Bool, true, false, some, ℕ, ◌-◌, ◌≡◌, ◌⊎◌, inl, inr, refl, text_eq, text_beq_iff, arith,
  if◌then◌else◌,
}
use k8s_cex_dra_driver.Prelude.Exec.{Result, ok, err, Exec}
use k8s_cex_dra_driver.Prelude.Strings.{bytes}
use k8s_cex_dra_driver.Os.{Os}
use k8s_cex_dra_driver.Resource.{DriverResources}
use k8s_cex_dra_driver.Health
use k8s_cex_dra_driver.Health.{age, stamp}
use k8s_cex_dra_driver.Health.Edges.{within, exceeds_lem}
use k8s_cex_dra_driver.Prelude.Int.{ℤ}
use k8s_cex_dra_driver.ApScanner.{DevicesByCard, ScanError, scan}
use k8s_cex_dra_driver.DeviceState.Env.{Env}
use k8s_cex_dra_driver.Driver.{
  Driver, trigger_scan, scan_and_publish, run_scan_cycle, prepare_resource_claims,
  unprepare_resource_claims,
}
use k8s_cex_dra_driver.Driver.Loop.{
  Site, Step, tick, triggered, prepared, unprepared, elsewhere, Reach, here, next,
}

module _ (os : Os) (env : Env os) {PublishError : Type 0} (sha256_hex : Text → Text)
    (publish : DriverResources → Exec os.World PublishError (Unit {0})) (now : os.World → ℕ) where
  abbrev cycle : Driver → os.World → Driver × os.World
  cycle = run_scan_cycle os sha256_hex publish now

  scan_and_publish_same :
      (d : Driver) (w : os.World)
      → let (r, d', w') = scan_and_publish os sha256_hex publish d w in
        (d'.scan_pending ≡ d.scan_pending) × (d'.heartbeat ≡ d.heartbeat)
  unfolding scan_and_publish
  scan_and_publish_same d w = go (scan os d.machine_id d.mkvp_tracker w).0 refl
    where
      go :
          (r : Result ScanError DevicesByCard)
          → (scan os d.machine_id d.mkvp_tracker w).0 ≡ r
          → let (r, d', w') = scan_and_publish os sha256_hex publish d w in
            (d'.scan_pending ≡ d.scan_pending) × (d'.heartbeat ≡ d.heartbeat)
      go (err e) f = rw f (refl, refl)
      go (ok cards) f = rw f (refl, refl)

  -- A cycle that has ended, whether with an error or not, has the probe answered by the time that has
  -- passed since: SERVING up to the threshold, NOT_SERVING beyond. No time is up to a negative one.
  pub run_scan_cycle-check :
      (d : Driver) (w : os.World) (last later : ℕ) (threshold : ℤ)
      → d.heartbeat ≡ some last
      → let (d', w') = cycle d w in
        Health.check d'.heartbeat threshold (bytes "liveness") later
        ≡ some (within threshold (later - now w'))
  unfolding run_scan_cycle stamp Health.check age
  run_scan_cycle-check d w last later threshold h = ground (
    arith,
    exceeds_lem threshold (later - now (cycle d w).1),
    scan_and_publish_same d w,
    text_beq_iff (bytes "liveness") (bytes "liveness"),
  )

  -- Whether a step is a call of the kubelet, or a cycle that takes a request.
  unfoldable pub is_call :
      {s t : Site os env sha256_hex publish now} → Step os env sha256_hex publish now s t → Bool
  is_call (prepared d w claims) = true
  is_call (unprepared d w claims) = true
  is_call _ = false

  unfoldable pub is_triggered :
      {s t : Site os env sha256_hex publish now} → Step os env sha256_hex publish now s t → Bool
  is_triggered (triggered d w pending) = true
  is_triggered _ = false

  unfoldable pub serves :
      {s t : Site os env sha256_hex publish now} → Reach os env sha256_hex publish now s t → Bool
  unfolding is_triggered
  serves here = false
  serves (next r x) = if is_triggered x then true else serves r

  call_pending :
      {s t : Site os env sha256_hex publish now} (x : Step os env sha256_hex publish now s t)
      → is_call x ≡ true
      → t.0.scan_pending ≡ true
  unfolding is_call prepare_resource_claims unprepare_resource_claims trigger_scan
  call_pending (tick d w) h = ground arith
  call_pending (triggered d w pending) h = ground arith
  call_pending (prepared d w claims) h = refl
  call_pending (unprepared d w claims) h = refl
  call_pending (elsewhere d w w') h = ground arith

  step_pending :
      {s t : Site os env sha256_hex publish now} (x : Step os env sha256_hex publish now s t)
      → s.0.scan_pending ≡ true
      → (t.0.scan_pending ≡ true) ⊎ (is_triggered x ≡ true)
  unfolding is_triggered prepare_resource_claims unprepare_resource_claims trigger_scan
      run_scan_cycle
  step_pending (tick d w) h = inl (ground (arith, scan_and_publish_same d w))
  step_pending (triggered d w pending) h = inr refl
  step_pending (prepared d w claims) h = inl refl
  step_pending (unprepared d w claims) h = inl refl
  step_pending (elsewhere d w w') h = inl h

  pending_or_served :
      {s t : Site os env sha256_hex publish now} (r : Reach os env sha256_hex publish now s t)
      → s.0.scan_pending ≡ true
      → (t.0.scan_pending ≡ true) ⊎ (serves r ≡ true)
  unfolding serves
  pending_or_served here h = inl h
  pending_or_served (next r x) h = elim (pending_or_served r h) [
    | inl p ↦ elim (step_pending x p) [ inl q ↦ inl q | inr q ↦ inr (ground arith) ]
    | inr q ↦ inr (ground arith)
  ]

  -- After a call of the kubelet a scan is asked for until a triggered cycle runs, which began after the
  -- call: no step in between loses the request.
  pub call_pending_or_served :
      {s t u : Site os env sha256_hex publish now} (x : Step os env sha256_hex publish now s t)
      (r : Reach os env sha256_hex publish now t u)
      → is_call x ≡ true
      → (u.0.scan_pending ≡ true) ⊎ (serves r ≡ true)
  call_pending_or_served x r h = pending_or_served r (call_pending x h)
