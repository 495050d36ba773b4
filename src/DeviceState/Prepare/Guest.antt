-- ===== src/DeviceState/Prepare/Guest.antt =====
-- What `Prepare` makes of the mediated devices.
use k8s_cex_dra_driver.Prelude.{
  Text, List, true, false, ◌≡◌, inl, inr, ◌∙◌, sym, ap, some, ◌==◌, text_eq, contains,
}
use k8s_cex_dra_driver.Prelude.Exec.{ok}
use k8s_cex_dra_driver.Os.{Os}
use k8s_cex_dra_driver.Mdev.{Apqn, apqn_eq}
use k8s_cex_dra_driver.Resource.{Allocation, ResourceClaim, PreparedDevice}
use k8s_cex_dra_driver.CryptoConfig.{CryptoConfig}
use k8s_cex_dra_driver.DeviceState.{DeviceState}
use k8s_cex_dra_driver.DeviceState.Env.{Env}
use k8s_cex_dra_driver.DeviceState.Allocation.{Classes, Collected, collect_allocated_apqns}
use k8s_cex_dra_driver.DeviceState.Build.{ensure_mdev}
use k8s_cex_dra_driver.DeviceState.Matrix.{allocates, matrix_spans_allocation, collected-IsNodup}
use k8s_cex_dra_driver.DeviceState.Quiet.{Quiet, Quiet-map}
use k8s_cex_dra_driver.DeviceState.Ensure.Outcome.{compared-look}
use k8s_cex_dra_driver.DeviceState.Guests.{Guest, Guests, IsNumber}
use k8s_cex_dra_driver.DeviceState.Guests.Build.{IsBuilt, IsSpanned}
use k8s_cex_dra_driver.DeviceState.Guests.Ensure.{
  ensure_mdev_ok, ensure_mdev_other, ensure_mdev_again,
}
use k8s_cex_dra_driver.DeviceState.Prepare.{prepare}
use k8s_cex_dra_driver.DeviceState.Prepare.Effects.{IsVm, announce-Leaves, prepare_ok, prepare-look}

module _ (os : Os) (g : Guests os) (env : Env os) (s : DeviceState) (claim : ResourceClaim)
    (visits : (w : os.World) (texts : List Text) (t : Text)
      → contains (env.range_texts w texts) t ≡ contains texts t) where
  open g use {guest}

  -- `Prepare` leaves the mdevs of other claims as they were.
  pub prepare_other :
      (other : Text) (w : os.World)
      → (claim.uid == other) ≡ false
      → guest (prepare os env s claim w).1 other ≡ guest w other
  prepare_other other w apart =
      prepare-look os env s claim (λ v. guest v other) (Quiet-map os guest (λ f. f other) g.apart) w
        λ a c mode e f. ensure_mdev_other os g claim.uid env visits mode c w other apart

  module _ (a : Allocation) (c : Classes) (cfg : CryptoConfig) (vm : IsVm os env s claim a c cfg)
      (some_queue : Apqn)
      (is_allocated : allocates s.driver_name s.allocatable a.results some_queue ≡ true)
      (numbers : (q : Apqn)
        → allocates s.driver_name s.allocatable a.results q ≡ true
        → IsNumber 2 q.apid × IsNumber 4 q.apqi) where
    collected-IsSpanned :
        (col : Collected)
        → collect_allocated_apqns s.driver_name s.allocatable a.results ≡ ok col
        → IsSpanned col
    collected-IsSpanned col e =
        let spans = matrix_spans_allocation s.driver_name s.allocatable a.results col e in
        record {
          some_queue = some_queue;
          is_allocated = (spans some_queue).1 ∙ is_allocated;
          spans = λ q. (spans q).0;
          numbers = λ q m. numbers q (sym (spans q).1 ∙ m);
        }

    -- When `Prepare` succeeds for a VM claim, the claim's mdev is there, and its matrix lists exactly the
    -- queues that the claim's results for this driver name.
    pub prepare_guest :
        (w : os.World) (ds : List PreparedDevice)
        → (prepare os env s claim w).0 ≡ ok ds
        → let after = guest (prepare os env s claim w).1 claim.uid in
          (after.present ≡ true)
          × ((q : Apqn) → contains after.rows q ≡ allocates s.driver_name s.allocatable a.results q)
    prepare_guest w ds done =
        let (col, collected, ensured, last) = prepare_ok os env s claim a c cfg w ds vm done in
        let v = (ensure_mdev os env claim.uid cfg.control_domain_mode col w).1 in
        let same : guest (prepare os env s claim w).1 claim.uid ≡ guest v claim.uid =
          ap (λ u. guest u claim.uid) last
          ∙ ap (λ (f : Text → Guest). f claim.uid)
              ((announce-Leaves os env s claim guest g.apart a).at v) in
        let (present, rows) =
          ensure_mdev_ok os g claim.uid env visits cfg.control_domain_mode col w
            (collected-IsSpanned col collected)
            (collected-IsNodup s.driver_name s.allocatable a.results col collected) ensured in
        (
          ap (λ (h : Guest). h.present) same ∙ present,
          λ q.
              ap (λ (h : Guest). contains h.rows q) same
              ∙ rows q
              ∙ (matrix_spans_allocation s.driver_name s.allocatable a.results col collected q).1,
        )

    -- A VM claim that is prepared once more, maybe after scans have replaced the devices that `Prepare`
    -- looks up, whose mdev nobody has touched since it was prepared, and whose results name the same
    -- queues as before, leaves alone whatever the files of the plugin and its reads leave alone, the
    -- mdevs among them, whether `Prepare` succeeds again or fails. The claim names a queue, all of its
    -- queues go by numbers as the kernel prints them, and a range over a set visits its members only,
    -- and all of them.
    pub prepare_twice :
        {A : Type 0} (look : os.World → A) (quiet : Quiet os look) (s' : DeviceState)
        (w v : os.World) (ds : List PreparedDevice)
        → (prepare os env s claim w).0 ≡ ok ds
        → guest v claim.uid ≡ guest (prepare os env s claim w).1 claim.uid
        → ((q : Apqn)
            → allocates s'.driver_name s'.allocatable a.results q
              ≡ allocates s.driver_name s.allocatable a.results q)
        → look (prepare os env s' claim v).1 ≡ look v
    prepare_twice look quiet s' w v ds done kept renamed =
        prepare-look os env s' claim look quiet v λ a' col mode e f.
          let compare = compared-look os env claim.uid col v look quiet in
          elim (ensure_mdev_again os g claim.uid env visits mode col v
            (collected-IsNodup s'.driver_name s'.allocatable a'.results col f) (built col a' e f)) [
              | inl same ↦ ap (λ r. look r.1) same ∙ compare
              | inr (x, same) ↦ ap (λ r. look r.1) same ∙ compare
            ]
      where
        built :
            (col : Collected) (a' : Allocation)
            → claim.allocation ≡ some a'
            → collect_allocated_apqns s'.driver_name s'.allocatable a'.results ≡ ok col
            → IsBuilt os g claim.uid col v
        built col a' e f =
            let allocated : claim.allocation ≡ some a = vm.0 in
            let same : a ≡ a' = cc in
            let (present, rows) = prepare_guest w ds done in
            (
              ap (λ (h : Guest). h.present) kept ∙ present,
              λ q.
                  ap (λ (h : Guest). contains h.rows q) kept
                  ∙ rows q
                  ∙ sym (renamed q)
                  ∙ ap (λ (b : Allocation). allocates s'.driver_name s'.allocatable b.results q)
                      same
                  ∙ sym
                      (matrix_spans_allocation s'.driver_name s'.allocatable a'.results col f q).1,
            )
