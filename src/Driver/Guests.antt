-- ===== src/Driver/Guests.antt =====
-- What becomes of the mediated device of a claim while the driver runs: its cycles, the calls for other
-- claims, and all that happens elsewhere on the node.
use k8s_cex_dra_driver.Prelude.{
  Text, List, [], ◌∷◌, ◌++◌, true, false, some, ℕ, ◌≡◌, refl, ◌∙◌, ap, ◌==◌, text_eq, contains, All,
}
use k8s_cex_dra_driver.Prelude.Exec.{ok, Exec}
use k8s_cex_dra_driver.Prelude.Dict.{get}
use k8s_cex_dra_driver.Os.{Os}
use k8s_cex_dra_driver.Mdev.{Apqn, apqn_eq}
use k8s_cex_dra_driver.Resource.{Allocation, ResourceClaim, DriverResources}
use k8s_cex_dra_driver.CryptoConfig.{CryptoConfig}
use k8s_cex_dra_driver.DeviceState.Env.{Env}
use k8s_cex_dra_driver.DeviceState.Allocation.{Classes}
use k8s_cex_dra_driver.DeviceState.Matrix.{allocates}
use k8s_cex_dra_driver.DeviceState.Quiet.{Quiet-map}
use k8s_cex_dra_driver.DeviceState.Guests.{Guest, Guests, IsNumber}
use k8s_cex_dra_driver.DeviceState.Prepare.{prepare}
use k8s_cex_dra_driver.DeviceState.Prepare.Effects.{IsVm}
use k8s_cex_dra_driver.DeviceState.Prepare.Guest.{prepare_guest}
use k8s_cex_dra_driver.DeviceState.Unprepare.Guest.{unprepare_gone}
use k8s_cex_dra_driver.Driver.{
  Driver, run_scan_cycle, ClaimDevice, prepare_each, unprepare_each, prepare_resource_claims,
  unprepare_resource_claims,
}
use k8s_cex_dra_driver.Driver.Loop.{
  Site, site, Step, tick, triggered, prepared, unprepared, elsewhere, Reach, here, next,
}
use k8s_cex_dra_driver.Driver.Scans.{run_scan_cycle-quiet}
use k8s_cex_dra_driver.Driver.Calls.{
  IsOther, prepare_in_each, unprepare_in_each, prepare_each-guest, unprepare_each-guest,
  prepare_in_each-guest, unprepare_in_each-guest,
}

module _ (os : Os) (g : Guests os) (env : Env os)
    (visits : (w : os.World) (texts : List Text) (t : Text)
      → contains (env.range_texts w texts) t ≡ contains texts t)
    (uid : Text) where
  abbrev look : os.World → Guest
  look w = g.guest w uid

  module _ {PublishError : Type 0} (sha256_hex : Text → Text)
      (publish : DriverResources → Exec os.World PublishError (Unit {0})) (now : os.World → ℕ)
      (published : (resources : DriverResources) (w : os.World)
        → g.guest (publish resources w).1 ≡ g.guest w) where
    -- The calls of the step are for other claims, and nobody else touches the claim's mdev.
    unfoldable pub Spares :
        {s t : Site os env sha256_hex publish now} → Step os env sha256_hex publish now s t → Type 0
    Spares (tick d w) = Unit
    Spares (triggered d w pending) = Unit
    Spares (prepared d w claims) = All (IsOther uid) claims
    Spares (unprepared d w claims) = All (λ other. (other == uid) ≡ false) claims
    Spares (elsewhere d w w') = look w' ≡ look w

    unfoldable pub AllSpare :
        {s t : Site os env sha256_hex publish now}
        → Reach os env sha256_hex publish now s t
        → Type 0
    AllSpare here = Unit
    AllSpare (next r x) = AllSpare r × Spares x

    cycle :
        (d : Driver) (w : os.World) → look (run_scan_cycle os sha256_hex publish now d w).1 ≡ look w
    cycle =
        run_scan_cycle-quiet os look (Quiet-map os g.guest (λ f. f uid) g.apart) sha256_hex publish
          (λ resources w. ap (λ (f : Text → Guest). f uid) (published resources w)) now

    Step-guest :
        {s t : Site os env sha256_hex publish now} (x : Step os env sha256_hex publish now s t)
        → Spares x
        → look t.1 ≡ look s.1
    unfolding Spares prepare_resource_claims unprepare_resource_claims
    Step-guest (tick d w) h = cycle d w
    Step-guest (triggered d w pending) h = cycle (record d { scan_pending = false }) w
    Step-guest (prepared d w claims) h =
        prepare_each-guest os g env visits uid d.state claims [] w h
    Step-guest (unprepared d w claims) h =
        unprepare_each-guest os g env visits uid d.state claims [] w h
    Step-guest (elsewhere d w w') h = h

    Reach-guest :
        {s t : Site os env sha256_hex publish now} (r : Reach os env sha256_hex publish now s t)
        → AllSpare r
        → look t.1 ≡ look s.1
    unfolding AllSpare
    Reach-guest here h = refl
    Reach-guest (next r x) (h, spares) = Step-guest x spares ∙ Reach-guest r h

module _ (os : Os) (g : Guests os) (env : Env os)
    (visits : (w : os.World) (texts : List Text) (t : Text)
      → contains (env.range_texts w texts) t ≡ contains texts t)
    {PublishError : Type 0} (sha256_hex : Text → Text)
    (publish : DriverResources → Exec os.World PublishError (Unit {0})) (now : os.World → ℕ)
    (published : (resources : DriverResources) (w : os.World)
      → g.guest (publish resources w).1 ≡ g.guest w) where
  -- A call of the kubelet for several claims has answered one of them, a VM claim that no later entry of
  -- the call names, with devices. From then on, through any scan cycles, publications, calls for other
  -- claims, and whatever else leaves this claim's mdev alone: the mdev is there, and its matrix lists
  -- exactly the queues that the claim's results for this driver name. The claim names a queue, all of
  -- its queues go by numbers as the kernel prints them, publishing leaves the mdevs alone, and a range
  -- over a set visits its members only, and all of them.
  pub prepared_kept :
      (d : Driver) (w : os.World) (before after : List ResourceClaim) (claim : ResourceClaim)
      (answer : List ClaimDevice) (a : Allocation) (c : Classes) (cfg : CryptoConfig)
      (some_queue : Apqn) (t : Site os env sha256_hex publish now)
      → let call = prepare_resource_claims os env d (before ++ (claim ∷ after)) w in
        (r : Reach os env sha256_hex publish now (site os env sha256_hex publish now call) t)
        → IsVm os env d.state claim a c cfg
        → allocates d.state.driver_name d.state.allocatable a.results some_queue ≡ true
        → ((q : Apqn)
            → allocates d.state.driver_name d.state.allocatable a.results q ≡ true
            → IsNumber 2 q.apid × IsNumber 4 q.apqi)
        → All (IsOther claim.uid) after
        → get claim.uid call.0 ≡ some (ok answer)
        → AllSpare os g env visits claim.uid sha256_hex publish now published r
        → ((g.guest t.1 claim.uid).present ≡ true)
          × ((q : Apqn)
              → contains (g.guest t.1 claim.uid).rows q
                ≡ allocates d.state.driver_name d.state.allocatable a.results q)
  unfolding prepare_resource_claims
  prepared_kept d w before after claim answer a c cfg some_queue t r vm named numbers others done
        spares =
      let s = d.state in
      let (ds, ok_first) = prepare_in_each os env s before after claim w answer others done in
      let v = (prepare_each os env s before [] w).1 in
      let (present, rows) =
        prepare_guest os g env s claim visits a c cfg vm some_queue named numbers v ds ok_first in
      let kept : g.guest t.1 claim.uid ≡ g.guest (prepare os env s claim v).1 claim.uid =
        Reach-guest os g env visits claim.uid sha256_hex publish now published r spares
        ∙ prepare_in_each-guest os g env visits s before after claim w others in
      (
        ap (λ (h : Guest). h.present) kept ∙ present,
        λ q. ap (λ (h : Guest). contains h.rows q) kept ∙ rows q,
      )

  -- A call of the kubelet for several claims has answered for one of them, which no later entry of the
  -- call names, that it is unprepared. From then on, through any scan cycles, publications, calls for
  -- other claims, and whatever else leaves this claim's mdev alone, the claim has no mdev. Publishing
  -- leaves the mdevs alone, and a range over a set visits its members only, and all of them.
  pub unprepared_kept :
      (d : Driver) (w : os.World) (before after : List Text) (uid : Text)
      (t : Site os env sha256_hex publish now)
      → let call = unprepare_resource_claims os env d (before ++ (uid ∷ after)) w in
        (r : Reach os env sha256_hex publish now (site os env sha256_hex publish now call) t)
        → All (λ other. (other == uid) ≡ false) after
        → get uid call.0 ≡ some (ok tt)
        → AllSpare os g env visits uid sha256_hex publish now published r
        → (g.guest t.1 uid).present ≡ false
  unfolding unprepare_resource_claims
  unprepared_kept d w before after uid t r others done spares =
      let v = (unprepare_each os env d.state before [] w).1 in
      ap (λ (h : Guest). h.present)
        (Reach-guest os g env visits uid sha256_hex publish now published r spares
          ∙ unprepare_in_each-guest os g env visits d.state before after uid w others)
      ∙ unprepare_gone os g env d.state uid v
          (unprepare_in_each os env d.state before after uid w others done)
