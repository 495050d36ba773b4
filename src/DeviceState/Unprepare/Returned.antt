-- ===== src/DeviceState/Unprepare/Returned.antt =====
-- Which queues `Unprepare` gives back to zcrypt.
use k8s_cex_dra_driver.Prelude.{
  Text, List, [], ◌∷◌, Bool, true, false, ◌≡◌, ◌⊎◌, inl, inr, refl, ◌==◌, text_eq, map, contains,
  Bool-cases, ==→eq, subst, arith, ◌||◌, if◌then◌else◌,
}
use k8s_cex_dra_driver.Prelude.Exec.{Result, ok, err, is_ok}
use k8s_cex_dra_driver.Os.{Os}
use k8s_cex_dra_driver.Mdev.{Apqn}
use k8s_cex_dra_driver.Binding.{switch_to_zcrypt}
use k8s_cex_dra_driver.Binding.Kernel.{Kernel, SameQueue, SameQueue-trans}
use k8s_cex_dra_driver.Binding.Mdevs.{destroy-Same}
use k8s_cex_dra_driver.Binding.Switch.{switch_to_zcrypt_ok, switch_to_zcrypt_other}
use k8s_cex_dra_driver.DeviceState.{DeviceState}
use k8s_cex_dra_driver.DeviceState.Env.{Env}
use k8s_cex_dra_driver.DeviceState.Build.{rollback}
use k8s_cex_dra_driver.DeviceState.Rollback.{id_of}
use k8s_cex_dra_driver.DeviceState.Unprepare.{return_queues, unprepare}
use k8s_cex_dra_driver.DeviceState.Unprepare.Steps.{
  tested, spec_deleted, rows, rows_read, destroyed, unprepare_cases, unprepare_late,
}
use k8s_cex_dra_driver.DeviceState.Unprepare.Queues.{
  was_vm-Same, delete_claim_spec-Same, delete_claim_metadata-Same, claimed_apqns-Same,
}

is_ok-eq_ok : {E : Type 0} → (r : Result E (Unit {0})) → is_ok r ≡ true → r ≡ ok tt
is_ok-eq_ok (ok t) h = refl
is_ok-eq_ok (err e) h = ground arith

module _ (os : Os) (k : Kernel os) (env : Env os) where
  -- The names of the queues whose switch the roll back logs as failed.
  unfoldable pub unreturned : List Apqn → os.World → List Text
  unreturned [] w = []
  unreturned (q ∷ queues) w =
      let (r, w') = switch_to_zcrypt os env.verbose q.apid q.apqi w in
      let rest = unreturned queues w' in if is_ok r then rest else id_of q ∷ rest

  -- The queue has no override, and the driver that the bus attaches without one.
  abbrev pub IsReturned : Text → os.World → Type 0
  IsReturned id w = (k.override w id ≡ []) × (k.driver w id ≡ k.attach [])

  switch-IsReturned :
      (id : Text) (q : Apqn) (w : os.World)
      → let r = switch_to_zcrypt os env.verbose q.apid q.apqi w in
        ((id_of q == id) ≡ true) × (is_ok r.0 ≡ true) ⊎ ((id_of q == id) ≡ false) × IsReturned id w
        → IsReturned id r.1
  switch-IsReturned id q w (inl (same, done)) =
      subst (λ i. IsReturned i (switch_to_zcrypt os env.verbose q.apid q.apqi w).1) (==→eq same)
        (switch_to_zcrypt_ok os k q.apid q.apqi env.verbose w (is_ok-eq_ok _ done))
  switch-IsReturned id q w (inr (other, h)) =
      ground (arith, switch_to_zcrypt_other os k q.apid q.apqi env.verbose w id other)

  rollback-IsReturned :
      (id : Text) (queues : List Apqn) (w : os.World)
      → (contains (map id_of queues) id ≡ true) ⊎ IsReturned id w
      → contains (unreturned queues w) id ≡ false
      → IsReturned id (rollback os env queues w)
  unfolding rollback unreturned contains
  rollback-IsReturned id [] w (inl m) u = absurd (ground arith)
  rollback-IsReturned id [] w (inr h) u = h
  rollback-IsReturned id (q ∷ queues) w h u =
      let r = switch_to_zcrypt os env.verbose q.apid q.apqi w in
      elim (Bool-cases (id_of q == id)) [
        | inl same ↦
            let done : is_ok r.0 ≡ true = ground arith in
            rollback-IsReturned id queues r.1 (inr (switch-IsReturned id q w (inl (same, done))))
              (ground arith)
        | inr other ↦ rollback-IsReturned id queues r.1 (go other h) (ground arith)
      ]
    where
      go :
          (id_of q == id) ≡ false
          → (contains (map id_of (q ∷ queues)) id ≡ true) ⊎ IsReturned id w
          → (contains (map id_of queues) id ≡ true)
            ⊎ IsReturned id (switch_to_zcrypt os env.verbose q.apid q.apqi w).1
      go other (inl m) = inl (ground arith)
      go other (inr back) = inr (switch-IsReturned id q w (inr (other, back)))

module _ (os : Os) (k : Kernel os) (env : Env os) (s : DeviceState) (claim_uid id : Text)
    (w : os.World) where
  abbrev found : List Apqn
  found = rows os env s claim_uid w

  abbrev removed : os.World
  removed = destroyed os env s claim_uid w

  return_queues-IsReturned :
      (vm : Bool) (queues : List Apqn) (v : os.World)
      → contains (map id_of queues) id ≡ true
      → contains (unreturned os k env queues v) id ≡ false
      → IsReturned os k env id (return_queues os env s claim_uid vm queues v)
  unfolding return_queues
  return_queues-IsReturned vm [] v m u = absurd (unfold contains in ground arith)
  return_queues-IsReturned vm (q ∷ queues) v m u =
      rollback-IsReturned os k env id (q ∷ queues) v (inl m) u

  -- What becomes of a queue when `Unprepare` succeeds.
  abbrev pub IsReleased : os.World → Type 0
  IsReleased w' =
      (contains (map id_of found) id ≡ false)
      ⊎ (contains (unreturned os k env found removed) id ≡ true)
      ⊎ IsReturned os k env id w'

  return_queues-IsReleased :
      (vm : Bool) → IsReleased (return_queues os env s claim_uid vm found removed)
  return_queues-IsReleased vm = elim (Bool-cases (contains (map id_of found) id)) [
    | inr outside ↦ inl outside
    | inl inside ↦ elim (Bool-cases (contains (unreturned os k env found removed) id)) [
      | inl failed ↦ inr (inl failed)
      | inr switched ↦ inr (inr (return_queues-IsReturned vm found removed inside switched))
    ]
  ]

  abbrev after_test : os.World
  after_test = tested os env s claim_uid w

  abbrev after_spec : os.World
  after_spec = spec_deleted os env s claim_uid w

  abbrev before_removal : os.World
  before_removal = rows_read os env s claim_uid w

  after_spec-Same : SameQueue os k id w after_spec
  after_spec-Same =
      SameQueue-trans os k (was_vm-Same os k env s claim_uid id w)
        (delete_claim_spec-Same os k env s claim_uid id after_test)

  removed-Same : SameQueue os k id w removed
  removed-Same = SameQueue-trans os k after_spec-Same (
      SameQueue-trans os k (delete_claim_metadata-Same os k env s claim_uid id after_spec) (
        SameQueue-trans os k (claimed_apqns-Same os k env s claim_uid id _)
          (destroy-Same os k id claim_uid before_removal)))

  -- For every queue: `Unprepare` either fails, and then it has not touched the queue, or it succeeds,
  -- and then the queue is not in the mdev's matrix, or its switch back is one of those that fail, or
  -- it has no override and the driver that the bus attaches without one.
  pub unprepare-IsReleased :
      let r = unprepare os env s claim_uid w in
      ((is_ok r.0 ≡ false) × SameQueue os k id w r.1) ⊎ ((r.0 ≡ ok tt) × IsReleased r.1)
  unprepare-IsReleased = elim (Bool-cases (env.ended w || env.gave_up w)) [
    | inl late ↦ rw (unprepare_late os env s claim_uid w late) (inl (refl, (refl, refl)))
    | inr locked ↦ elim (unprepare_cases os env s claim_uid w locked) [
      | inl (e, same) ↦ rw same (inl (refl, after_spec-Same))
      | inr (inl (e, same)) ↦ rw same (inl (refl, removed-Same))
      | inr (inr (gone, same)) ↦ rw same (inr (refl, return_queues-IsReleased _))
    ]
  ]
