-- ===== src/Driver/Released.antt =====
-- What becomes of the queues of a claim from its `Prepare` to its `Unprepare`.
use k8s_cex_dra_driver.Prelude.{
  Text, List, [], ◌∷◌, ◌++◌, true, some, ℕ, ◌≡◌, ◌⊎◌, inl, inr, ◌∙◌, ap, ◌==◌, ==_refl, ==→eq,
  Bool-cases, text_eq, contains, map, All, arith,
}
use k8s_cex_dra_driver.Prelude.Exec.{ok, Exec, is_ok}
use k8s_cex_dra_driver.Prelude.Dict.{get}
use k8s_cex_dra_driver.Prelude.Strings.{bytes}
use k8s_cex_dra_driver.Os.{Os}
use k8s_cex_dra_driver.Mdev.{Apqn, apqn_eq, attribute_path}
use k8s_cex_dra_driver.Binding.Kernel.{Kernel}
use k8s_cex_dra_driver.Resource.{Allocation, ResourceClaim, DriverResources}
use k8s_cex_dra_driver.CryptoConfig.{CryptoConfig}
use k8s_cex_dra_driver.DeviceState.Env.{Env}
use k8s_cex_dra_driver.DeviceState.Allocation.{Classes}
use k8s_cex_dra_driver.DeviceState.Matrix.{allocates}
use k8s_cex_dra_driver.DeviceState.Rollback.{id_of}
use k8s_cex_dra_driver.DeviceState.Guests.{Guests, IsNumber}
use k8s_cex_dra_driver.DeviceState.Prepare.Effects.{IsVm}
use k8s_cex_dra_driver.DeviceState.Unprepare.Steps.{destroyed}
use k8s_cex_dra_driver.DeviceState.Unprepare.Matrix.{matrix_queue-IsReturned}
use k8s_cex_dra_driver.DeviceState.Unprepare.Returned.{unreturned, IsReturned}
use k8s_cex_dra_driver.Driver.{
  Driver, ClaimDevice, prepare_resource_claims, unprepare_resource_claim,
}
use k8s_cex_dra_driver.Driver.Loop.{Site, site, Reach}
use k8s_cex_dra_driver.Driver.Calls.{IsOther}
use k8s_cex_dra_driver.Driver.Guests.{AllSpare, prepared_kept}

contains-id_of :
    (queues : List Apqn) (q : Apqn)
    → contains queues q ≡ true
    → contains (map id_of queues) (id_of q) ≡ true
unfolding contains
contains-id_of [] q m = m
contains-id_of (p ∷ queues) q m = elim (Bool-cases (p == q)) [
  | inl same ↦
      let e : id_of p ≡ id_of q = ap id_of (==→eq same) in ground (arith, ==_refl (id_of q))
  | inr apart ↦ ground (arith, contains-id_of queues q)
]

module _ (os : Os) (g : Guests os) (k : Kernel os) (env : Env os)
    (visits : (w : os.World) (texts : List Text) (t : Text)
      → contains (env.range_texts w texts) t ≡ contains texts t)
    {PublishError : Type 0} (sha256_hex : Text → Text)
    (publish : DriverResources → Exec os.World PublishError (Unit {0})) (now : os.World → ℕ)
    (published : (resources : DriverResources) (w : os.World)
      → g.guest (publish resources w).1 ≡ g.guest w) where
  -- A call of the kubelet for several claims has answered one of them, a VM claim that no later entry of
  -- the call names, with devices; and after any scan cycles, publications, calls for other claims, and
  -- whatever else leaves this claim's mdev alone, the claim is unprepared with success. Then each queue
  -- that its results for this driver name has no override, and the driver that the bus attaches without
  -- one, unless its switch back is one of those that fail. The claim's queues go by numbers as the
  -- kernel prints them, its mdev's matrix file can be read while the mdev is there, publishing leaves
  -- the mdevs alone, and a range over a set visits its members only, and all of them.
  pub allocated_queue-IsReturned :
      (d : Driver) (w : os.World) (before after : List ResourceClaim) (claim : ResourceClaim)
      (answer : List ClaimDevice) (a : Allocation) (c : Classes) (cfg : CryptoConfig) (q : Apqn)
      (t : Site os env sha256_hex publish now)
      → let call = prepare_resource_claims os env d (before ++ (claim ∷ after)) w in
        let release = unprepare_resource_claim os env t.0.state claim.uid t.1 in
        (r : Reach os env sha256_hex publish now (site os env sha256_hex publish now call) t)
        → IsVm os env d.state claim a c cfg
        → ((p : Apqn)
            → allocates d.state.driver_name d.state.allocatable a.results p ≡ true
            → IsNumber 2 p.apid × IsNumber 4 p.apqi)
        → All (IsOther claim.uid) after
        → get claim.uid call.0 ≡ some (ok answer)
        → AllSpare os g env visits claim.uid sha256_hex publish now published r
        → ((v : os.World)
            → (g.guest v claim.uid).present ≡ true
            → is_ok (os.read_file (attribute_path claim.uid (bytes "matrix")) v).0 ≡ true)
        → release.0 ≡ ok tt
        → allocates d.state.driver_name d.state.allocatable a.results q ≡ true
        → (contains
              (unreturned os k env
                (g.guest t.1 claim.uid).rows
                (destroyed os env t.0.state claim.uid t.1))
              (id_of q)
            ≡ true)
          ⊎ IsReturned os k env (id_of q) release.1
  unfolding unprepare_resource_claim
  allocated_queue-IsReturned d w before after claim answer a c cfg q t r vm numbers others done
        spares readable released m =
      let (present, matrix) =
        prepared_kept os g env visits sha256_hex publish now published d w before after claim answer
          a c cfg q t r vm m numbers others done spares in
      let listed = contains-id_of (g.guest t.1 claim.uid).rows q (matrix q ∙ m) in
      elim (matrix_queue-IsReturned os g k env t.0.state claim.uid (id_of q) t.1
        (present, readable)) [
          | inl (failed, same) ↦ absurd (ground arith)
          | inr (ended, inl outside) ↦ absurd (ground (arith, listed))
          | inr (ended, inr (inl failed)) ↦ inl failed
          | inr (ended, inr (inr back)) ↦ inr back
        ]
