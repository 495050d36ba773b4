-- ===== src/Driver/Calls.antt =====
-- A claim within a call of the kubelet for several claims, and the other claims of the call.
use k8s_cex_dra_driver.Prelude.{
  Text, List, [], ◌∷◌, ◌++◌, false, some, ◌≡◌, refl, ◌∙◌, sym, ap, ◌==◌, ==_refl, text_eq, contains,
  map, All, arith,
}
use k8s_cex_dra_driver.Prelude.Exec.{ok, bind_ok, pure}
use k8s_cex_dra_driver.Prelude.Dict.{Dict, get, put, get-put}
use k8s_cex_dra_driver.Os.{Os}
use k8s_cex_dra_driver.Mdev.{apqn_eq}
use k8s_cex_dra_driver.Resource.{ResourceClaim, PreparedDevice}
use k8s_cex_dra_driver.DeviceState.{DeviceState}
use k8s_cex_dra_driver.DeviceState.Env.{Env}
use k8s_cex_dra_driver.DeviceState.Guests.{Guest, Guests}
use k8s_cex_dra_driver.DeviceState.Prepare.{prepare}
use k8s_cex_dra_driver.DeviceState.Prepare.Guest.{prepare_other}
use k8s_cex_dra_driver.DeviceState.Unprepare.{unprepare}
use k8s_cex_dra_driver.DeviceState.Unprepare.Guest.{unprepare_other}
use k8s_cex_dra_driver.Driver.{
  ClaimDevice, claim_device, PrepareResult, UnprepareResult, prepare_resource_claim, prepare_each,
  unprepare_each,
}
use k8s_cex_dra_driver.Driver.Loop.{}

abbrev pub IsOther : Text → ResourceClaim → Type 0
IsOther uid claim = (claim.uid == uid) ≡ false

module _ (os : Os) (env : Env os) (s : DeviceState) where
  prepare_resource_claim-world :
      (claim : ResourceClaim) (w : os.World)
      → (prepare_resource_claim os env s claim w).1 ≡ (prepare os env s claim w).1
  unfolding prepare_resource_claim
  prepare_resource_claim-world claim w = ground arith

  prepare_each-append :
      (before claims : List ResourceClaim) (results : Dict Text (PrepareResult os env))
      (w : os.World)
      → let (results', w') = prepare_each os env s before results w in
        prepare_each os env s (before ++ claims) results w
        ≡ prepare_each os env s claims results' w'
  unfolding prepare_each
  prepare_each-append [] claims results w = refl
  prepare_each-append (c ∷ before) claims results w = prepare_each-append before claims _ _

  get-prepare_each :
      (uid : Text) (claims : List ResourceClaim) (results : Dict Text (PrepareResult os env))
      (w : os.World)
      → All (IsOther uid) claims
      → get uid (prepare_each os env s claims results w).0 ≡ get uid results
  unfolding prepare_each
  get-prepare_each uid [] results w others = refl
  get-prepare_each uid (c ∷ claims) results w (other, others) =
      let r = (prepare_resource_claim os env s c w).0 in
      get-prepare_each uid claims _ _ others ∙ ground (arith, get-put c.uid uid r results)

  unprepare_each-append :
      (before claims : List Text) (results : Dict Text (UnprepareResult os env)) (w : os.World)
      → let (results', w') = unprepare_each os env s before results w in
        unprepare_each os env s (before ++ claims) results w
        ≡ unprepare_each os env s claims results' w'
  unfolding unprepare_each
  unprepare_each-append [] claims results w = refl
  unprepare_each-append (c ∷ before) claims results w = unprepare_each-append before claims _ _

  get-unprepare_each :
      (uid : Text) (claims : List Text) (results : Dict Text (UnprepareResult os env))
      (w : os.World)
      → All (λ other. (other == uid) ≡ false) claims
      → get uid (unprepare_each os env s claims results w).0 ≡ get uid results
  unfolding unprepare_each
  get-unprepare_each uid [] results w others = refl
  get-unprepare_each uid (c ∷ claims) results w (other, others) =
      let r = (unprepare os env s c w).0 in
      get-unprepare_each uid claims _ _ others ∙ ground (arith, get-put c uid r results)

  -- The claim's own call in a call for several claims, if no later entry names it.
  pub prepare_in_each :
      (before after : List ResourceClaim) (claim : ResourceClaim) (w : os.World)
      (answer : List ClaimDevice)
      → All (IsOther claim.uid) after
      → get claim.uid (prepare_each os env s (before ++ (claim ∷ after)) [] w).0 ≡ some (ok answer)
      → (ds : List PreparedDevice) × ((prepare os env s claim
            (prepare_each os env s before [] w).1).0
          ≡ ok ds)
  unfolding prepare_resource_claim prepare_each
  prepare_in_each before after claim w answer others done =
      let (results, v) = prepare_each os env s before [] w in
      let (r, v') = prepare_resource_claim os env s claim v in
      let answered : some r ≡ some (ok answer) =
        ground (arith, get-put claim.uid claim.uid r results, ==_refl claim.uid)
        ∙ sym (get-prepare_each claim.uid after (put claim.uid r results) v' others)
        ∙ sym (ap (λ p. get claim.uid p.0) (prepare_each-append before (claim ∷ after) [] w))
        ∙ done in
      let (ds, first, _) =
        bind_ok (prepare os env s claim) (λ devices. pure (map claim_device devices)) v answer
          (ground arith) in
      (ds, first)

  pub unprepare_in_each :
      (before after : List Text) (uid : Text) (w : os.World)
      → All (λ other. (other == uid) ≡ false) after
      → get uid (unprepare_each os env s (before ++ (uid ∷ after)) [] w).0 ≡ some (ok tt)
      → (unprepare os env s uid (unprepare_each os env s before [] w).1).0 ≡ ok tt
  unfolding unprepare_each
  unprepare_in_each before after uid w others done =
      let (results, v) = unprepare_each os env s before [] w in
      let (r, v') = unprepare os env s uid v in
      let answered : some r ≡ some (ok tt) =
        ground (arith, get-put uid uid r results, ==_refl uid)
        ∙ sym (get-unprepare_each uid after (put uid r results) v' others)
        ∙ sym (ap (λ p. get uid p.0) (unprepare_each-append before (uid ∷ after) [] w))
        ∙ done in
      ground arith

module _ (os : Os) (g : Guests os) (env : Env os)
    (visits : (w : os.World) (texts : List Text) (t : Text)
      → contains (env.range_texts w texts) t ≡ contains texts t)
    (uid : Text) where
  abbrev pub guest_of : os.World → Guest
  guest_of w = g.guest w uid

  pub prepare_each-guest :
      (s : DeviceState) (claims : List ResourceClaim) (results : Dict Text (PrepareResult os env))
      (w : os.World)
      → All (IsOther uid) claims
      → guest_of (prepare_each os env s claims results w).1 ≡ guest_of w
  unfolding prepare_each
  prepare_each-guest s [] results w others = refl
  prepare_each-guest s (c ∷ claims) results w (other, others) =
      prepare_each-guest s claims _ _ others
      ∙ ap guest_of (prepare_resource_claim-world os env s c w)
      ∙ prepare_other os g env s c visits uid w other

  pub unprepare_each-guest :
      (s : DeviceState) (claims : List Text) (results : Dict Text (UnprepareResult os env))
      (w : os.World)
      → All (λ other. (other == uid) ≡ false) claims
      → guest_of (unprepare_each os env s claims results w).1 ≡ guest_of w
  unfolding unprepare_each
  unprepare_each-guest s [] results w others = refl
  unprepare_each-guest s (c ∷ claims) results w (other, others) =
      unprepare_each-guest s claims _ _ others ∙ unprepare_other os g env s c w uid other

module _ (os : Os) (g : Guests os) (env : Env os)
    (visits : (w : os.World) (texts : List Text) (t : Text)
      → contains (env.range_texts w texts) t ≡ contains texts t)
    (s : DeviceState) where
  pub prepare_in_each-guest :
      (before after : List ResourceClaim) (claim : ResourceClaim) (w : os.World)
      → All (IsOther claim.uid) after
      → let v = (prepare_each os env s before [] w).1 in
        g.guest (prepare_each os env s (before ++ (claim ∷ after)) [] w).1 claim.uid
        ≡ g.guest (prepare os env s claim v).1 claim.uid
  unfolding prepare_each
  prepare_in_each-guest before after claim w others =
      let (results, v) = prepare_each os env s before [] w in
      let (r, v') = prepare_resource_claim os env s claim v in
      ap (λ p. g.guest p.1 claim.uid) (prepare_each-append os env s before (claim ∷ after) [] w)
      ∙ prepare_each-guest os g env visits claim.uid s after (put claim.uid r results) v' others
      ∙ ap (λ u. g.guest u claim.uid) (prepare_resource_claim-world os env s claim v)

  pub unprepare_in_each-guest :
      (before after : List Text) (uid : Text) (w : os.World)
      → All (λ other. (other == uid) ≡ false) after
      → let v = (unprepare_each os env s before [] w).1 in
        g.guest (unprepare_each os env s (before ++ (uid ∷ after)) [] w).1 uid
        ≡ g.guest (unprepare os env s uid v).1 uid
  unfolding unprepare_each
  unprepare_in_each-guest before after uid w others =
      let (results, v) = unprepare_each os env s before [] w in
      let (r, v') = unprepare os env s uid v in
      ap (λ p. g.guest p.1 uid) (unprepare_each-append os env s before (uid ∷ after) [] w)
      ∙ unprepare_each-guest os g env visits uid s after (put uid r results) v' others
