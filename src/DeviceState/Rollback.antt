-- ===== src/DeviceState/Rollback.antt =====
-- What switching a claim's queues does to the bus, and where the roll back loses a queue.
use k8s_cex_dra_driver.Prelude.{
  Text, List, [], ◌∷◌, ◌++◌, true, false, ◌≡◌, ◌⊎◌, refl, ◌∙◌, ◌==◌, text_eq, All, contains,
  Bool-cases, inl, inr, arith, ==→eq, ==_refl, subst,
}
use k8s_cex_dra_driver.Prelude.Exec.{Result, ok, err, is_ok}
use k8s_cex_dra_driver.Os.{Os, IoError}
use k8s_cex_dra_driver.Mdev.{Apqn, apqn_eq}
use k8s_cex_dra_driver.Binding.{
  queue_id, driver_override_path, vfio_ap, newline, SwitchError, write_override, unbind_queue,
  switch_to_vfio_ap, switch_to_zcrypt,
}
use k8s_cex_dra_driver.Binding.Kernel.{Kernel, SameQueue, SameQueue-trans, is_tracked}
use k8s_cex_dra_driver.Binding.Switch.{
  switch_to_vfio_ap_ok, switch_to_vfio_ap_other, switch_to_zcrypt_other, switch_to_zcrypt_loses,
  read_before,
}
use k8s_cex_dra_driver.DeviceState.Env.{Env}
use k8s_cex_dra_driver.DeviceState.Allocation.{switch_queue}
use k8s_cex_dra_driver.DeviceState.Build.{rollback, switch_from, switch_queues_to_vfio_ap}

abbrev pub id_of : Apqn → Text
id_of q = queue_id q.apid q.apqi

-- No queue of the list has this name on the bus.
abbrev pub Lacks : Text → List Apqn → Type 0
Lacks id = All (λ q. (id_of q == id) ≡ false)

Lacks-snoc :
    (id : Text) (qs : List Apqn) (q : Apqn)
    → Lacks id qs
    → (id_of q == id) ≡ false
    → Lacks id (qs ++ (q ∷ []))
Lacks-snoc id [] q h o = (o, tt)
Lacks-snoc id (x ∷ qs) q (ox, h) o = (ox, Lacks-snoc id qs q h o)

module _ (os : Os) (k : Kernel os) (env : Env os) where
  open k use {override, driver, attach, set_marker}

  pub rollback_same :
      (id : Text) (qs : List Apqn) (w : os.World)
      → Lacks id qs
      → SameQueue os k id w (rollback os env qs w)
  unfolding rollback
  rollback_same id [] w h = (refl, refl)
  rollback_same id (q ∷ qs) w (other, h) =
      SameQueue-trans os k (switch_to_zcrypt_other os k q.apid q.apqi env.verbose w id other)
        (rollback_same id qs (switch_to_zcrypt os env.verbose q.apid q.apqi w).1 h)

  -- Whether it succeeds, fails or runs out of time, the switching of a claim's queues, with its roll
  -- back, leaves the override and the driver of every queue outside the list alone.
  pub switch_from_same :
      (id : Text) (qs switched : List Apqn) (w : os.World)
      → Lacks id qs
      → Lacks id switched
      → SameQueue os k id w (switch_from os env qs switched w).1
  unfolding switch_from
  switch_from_same id [] switched w h g = (refl, refl)
  switch_from_same id (q ∷ qs) switched w (other, h) g =
      step (switch_from_same id qs (switched ++ (q ∷ [])) after h lacking)
        (switch_to_vfio_ap os q.apid q.apqi w).0 refl
    where
      after : os.World
      after = (switch_to_vfio_ap os q.apid q.apqi w).1

      lacking : Lacks id (switched ++ (q ∷ []))
      lacking = Lacks-snoc id switched q g other

      step :
          SameQueue os k id after (switch_from os env qs (switched ++ (q ∷ [])) after).1
          → (r : Result SwitchError (Unit {0})) → (switch_to_vfio_ap os q.apid q.apqi w).0 ≡ r
          → SameQueue os k id w (switch_from os env (q ∷ qs) switched w).1
      step rest (ok _) e = ground (
        arith,
        rollback_same id switched w g,
        switch_to_vfio_ap_other os k q.apid q.apqi w id other,
      )
      step rest (err x) e = ground (
        arith,
        rollback_same id switched w g,
        switch_to_vfio_ap_other os k q.apid q.apqi w id other,
        rollback_same id (switched ++ (q ∷ [])) after lacking,
      )

  -- The queue carries the marker and has the driver that the bus attaches for it.
  abbrev pub IsPassedThrough : Text → os.World → Type 0
  IsPassedThrough id w = (override w id ≡ vfio_ap) × (driver w id ≡ attach vfio_ap)

  switch_to_vfio_ap-IsPassedThrough :
      (q : Apqn) (id : Text) (w : os.World)
      → (switch_to_vfio_ap os q.apid q.apqi w).0 ≡ ok tt
      → ((id_of q == id) ≡ true) ⊎ IsPassedThrough id w
      → IsPassedThrough id (switch_to_vfio_ap os q.apid q.apqi w).1
  switch_to_vfio_ap-IsPassedThrough q id w done h = elim (Bool-cases (id_of q == id)) [
    | inl same ↦
        subst (λ i. IsPassedThrough i (switch_to_vfio_ap os q.apid q.apqi w).1) (==→eq same)
          (switch_to_vfio_ap_ok os k q.apid q.apqi w done)
    | inr other ↦ ground (arith, switch_to_vfio_ap_other os k q.apid q.apqi w id other)
  ]

  switch_from-eq_ok :
      (q : Apqn) (qs switched : List Apqn) (w : os.World)
      → (switch_from os env (q ∷ qs) switched w).0 ≡ ok tt
      → ((switch_to_vfio_ap os q.apid q.apqi w).0 ≡ ok tt)
        × (switch_from os env (q ∷ qs) switched w
            ≡ switch_from os env qs (switched ++ (q ∷ [])) (switch_to_vfio_ap os q.apid q.apqi w).1)
  unfolding switch_from
  switch_from-eq_ok q qs switched w h = go (switch_to_vfio_ap os q.apid q.apqi w).0 refl
    where
      go :
          (r : Result SwitchError (Unit {0}))
          → (switch_to_vfio_ap os q.apid q.apqi w).0 ≡ r
          → ((switch_to_vfio_ap os q.apid q.apqi w).0 ≡ ok tt)
            × (switch_from os env (q ∷ qs) switched w
                ≡ switch_from os env qs
                    (switched ++ (q ∷ []))
                    (switch_to_vfio_ap os q.apid q.apqi w).1)
      go (ok _) e = ground arith
      go (err x) e = ground arith

  switch_from-keeps :
      (id : Text) (qs switched : List Apqn) (w : os.World)
      → (switch_from os env qs switched w).0 ≡ ok tt
      → IsPassedThrough id w
      → IsPassedThrough id (switch_from os env qs switched w).1
  switch_from-keeps id [] switched w done h = unfold switch_from in h
  switch_from-keeps id (q ∷ qs) switched w done h =
      let (first, e) = switch_from-eq_ok q qs switched w done in
      rw e (
        switch_from-keeps id qs (switched ++ (q ∷ [])) _ (rw e at done)
          (switch_to_vfio_ap-IsPassedThrough q id w first (inr h)))

  switch_from-IsPassedThrough :
      (p : Apqn) (qs switched : List Apqn) (w : os.World)
      → (switch_from os env qs switched w).0 ≡ ok tt
      → contains qs p ≡ true
      → IsPassedThrough (id_of p) (switch_from os env qs switched w).1
  unfolding contains
  switch_from-IsPassedThrough p [] switched w done m = ground arith
  switch_from-IsPassedThrough p (q ∷ qs) switched w done m =
      let (first, e) = switch_from-eq_ok q qs switched w done in
      rw e (elim (Bool-cases (q == p)) [
        | inl same ↦ switch_from-keeps (id_of p) qs (switched ++ (q ∷ [])) _ (rw e at done) (
            switch_to_vfio_ap-IsPassedThrough q (id_of p) w first
              (let here : q ≡ p = ==→eq same in inl (rw here (==_refl (id_of p)))))
        | inr other ↦
            switch_from-IsPassedThrough p qs (switched ++ (q ∷ [])) _ (rw e at done) (rw other at m)
      ])

  -- When the switching of a claim's queues succeeds, every queue of the claim carries the marker and
  -- has the driver that the bus attaches for it. The range over the set visits each of its queues.
  pub switch_queues_ok :
      (allocated : List Apqn) (w : os.World) (p : Apqn)
      → contains (env.range_apqns w allocated) p ≡ contains allocated p
      → (switch_queues_to_vfio_ap os env allocated w).0 ≡ ok tt
      → contains allocated p ≡ true
      → IsPassedThrough (id_of p) (switch_queues_to_vfio_ap os env allocated w).1
  unfolding switch_queues_to_vfio_ap
  switch_queues_ok allocated w p visits done m =
      switch_from-IsPassedThrough p (env.range_apqns w allocated) [] w done (visits ∙ m)

  is_tracked_same :
      (id : Text) (w w' : os.World)
      → SameQueue os k id w w'
      → is_tracked os k w' id ≡ is_tracked os k w id
  unfolding is_tracked
  is_tracked_same id w w' h = ground arith

  -- If no override of the first queue can be written, neither the marker nor the clearing newline, the
  -- failed switch leaves that queue untouched on its driver, and the roll back then unbinds it: it ends
  -- with no driver and no marker, so that neither a driver pool nor the drain has it.
  pub rollback_loses_queue :
      (q : Apqn) (qs : List Apqn) (w : os.World) (e : IoError)
      → let tried = (os.write_file (driver_override_path q.apid q.apqi) vfio_ap w).1 in
        env.ended w ≡ false
        → override w (id_of q) ≡ []
        → (os.write_file (driver_override_path q.apid q.apqi) vfio_ap w).0 ≡ err e
        → (unbind_queue os q.apid q.apqi tried).0 ≡ ok tt
        → is_ok
            (os.write_file
              (driver_override_path q.apid q.apqi)
              newline
              (read_before os k q.apid q.apqi env.verbose tried)).0
          ≡ false
        → let r = switch_from os env (q ∷ qs) [] w in
          (r.0 ≡ err (switch_queue q (write_override e)))
          × (is_tracked os k tried (id_of q) ≡ is_tracked os k w (id_of q))
          × (is_tracked os k r.1 (id_of q) ≡ false)
  unfolding switch_from switch_to_vfio_ap
  rollback_loses_queue q qs w e early clear refused unbound refused_again =
      let tried = (os.write_file (driver_override_path q.apid q.apqi) vfio_ap w).1 in
      let same : SameQueue os k (id_of q) w tried =
        ground (arith, set_marker q.apid q.apqi w (id_of q)) in
      let (_, lost) =
        switch_to_zcrypt_loses os k q.apid q.apqi env.verbose tried (same.0 ∙ clear) unbound
          refused_again in
      (ground arith, is_tracked_same (id_of q) w tried same, ground arith)
