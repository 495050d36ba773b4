-- ===== src/DeviceState/Guests/Build.antt =====
-- What building an mdev makes of it.
use k8s_cex_dra_driver.Prelude.{
  ℕ, Text, List, [], ◌∷◌, ◌++◌, Bool, true, false, ◌&&◌, ◌||◌, ◌≡◌, refl, ◌∙◌, sym, arith, contains,
  All, ap, text_beq_iff, All-contains, ◌==◌, text_eq,
}
use k8s_cex_dra_driver.Prelude.Strings.{bytes}
use k8s_cex_dra_driver.Prelude.Exec.{Result, ok, err, Exec, wrap, ◌>>=◌, bind_ok, wrap_ok}
use k8s_cex_dra_driver.Os.{Os}
use k8s_cex_dra_driver.Mdev
use k8s_cex_dra_driver.Mdev.{
  Apqn, apqn_eq, MdevError, exists, attribute_path, vfio_ap_matrix_path, assign_adapter_error,
  assign_domain_error, assign_control_domain_error,
}
use k8s_cex_dra_driver.DeviceState.Env.{Env}
use k8s_cex_dra_driver.DeviceState.Quiet.{Leaves-call, Leaves-wrap, for_each-Leaves}
use k8s_cex_dra_driver.DeviceState.Guests.{Guest, Guests, new_guest, IsNumber}
use k8s_cex_dra_driver.DeviceState.Build.{
  for_each, switch_queues_to_vfio_ap, assign_mdev_matrix, assign_mdev_control_domains, or_destroy,
  make_mdev, build_mdev,
}
use k8s_cex_dra_driver.DeviceState.Allocation.{Collected, PrepareError, create_mdev}

-- The sets of the claim's adapters and domains span its queues, of which there is one, and whose
-- numbers are written as the module prints them.
pub record IsSpanned (c : Collected) : Type 0 where
  pub some_queue : Apqn
  pub is_allocated : contains c.allocated some_queue ≡ true
  pub spans :
      (q : Apqn)
      → (contains c.adapters q.apid && contains c.domains q.apqi) ≡ contains c.allocated q
  pub numbers : (q : Apqn) → contains c.allocated q ≡ true → IsNumber 2 q.apid × IsNumber 4 q.apqi

module _ (os : Os) (g : Guests os) (uid : Text) where
  open g use {guest}

  -- The mdev is there, and its matrix lists exactly the queues of the claim.
  abbrev pub IsBuilt : Collected → os.World → Type 0
  IsBuilt c w =
      ((guest w uid).present ≡ true)
      × ((q : Apqn) → contains (guest w uid).rows q ≡ contains c.allocated q)

  pub create_ok :
      (w : os.World)
      → (Mdev.create os uid w).0 ≡ ok tt
      → guest (Mdev.create os uid w).1 uid ≡ new_guest
  unfolding Mdev.create
  create_ok w h = ground (arith, g.create_write uid w uid, text_beq_iff uid uid)

  pub destroy_ok :
      (w : os.World)
      → (Mdev.destroy os uid w).0 ≡ ok tt
      → (guest (Mdev.destroy os uid w).1 uid).present ≡ false
  unfolding Mdev.destroy exists
  destroy_ok w h =
      let path = vfio_ap_matrix_path ++ (uid ∷ []) in
      let kept : (guest (os.stat path w).1 uid).present ≡ (guest w uid).present =
        ap (λ (f : Text → Guest). (f uid).present) (g.apart.stat path w) in
      ground (
        arith,
        kept,
        g.stat_present uid w,
        g.remove_write uid (os.stat path w).1 uid,
        text_beq_iff uid uid,
      )

  -- A call for each of some numbers, each of which grows one of the guest's two sets and keeps the
  -- other.
  module _ (env : Env os) (digits : ℕ) (f : Text → Exec os.World MdevError (Unit {0}))
      (grows keeps : Guest → Text → Bool)
      (step : (t : Text) (w : os.World)
        → IsNumber digits t
        → (f t w).0 ≡ ok tt
        → ((guest (f t w).1 uid).present ≡ (guest w uid).present)
          × (keeps (guest (f t w).1 uid) ≡ keeps (guest w uid))
          × ((x : Text) → grows (guest (f t w).1 uid) x ≡ (grows (guest w uid) x || t == x))) where
    for_each_ok :
        (texts : List Text) (w : os.World)
        → All (IsNumber digits) texts
        → (for_each os env f texts w).0 ≡ ok tt
        → let w' = (for_each os env f texts w).1 in
          ((guest w' uid).present ≡ (guest w uid).present)
          × (keeps (guest w' uid) ≡ keeps (guest w uid))
          × ((x : Text) → grows (guest w' uid) x ≡ (grows (guest w uid) x || contains texts x))
    unfolding for_each contains
    for_each_ok [] w h done = (refl, refl, λ x. ground arith)
    for_each_ok (t ∷ texts) w (n, h) done =
        let (u, first, e) = bind_ok (f t) (λ _. for_each os env f texts) w tt done in
        let (p, k, x) = step t w n first in
        let (p', k', x') = for_each_ok texts (f t w).1 h (rw e at done) in
        rw e (p' ∙ p, k' ∙ k, λ y. ground (arith, x y, x' y))

  adapter_step :
      (t : Text) (w : os.World)
      → IsNumber 2 t
      → (Mdev.assign_adapter os uid t w).0 ≡ ok tt
      → let w' = (Mdev.assign_adapter os uid t w).1 in
        ((guest w' uid).present ≡ (guest w uid).present)
        × ((guest w' uid).domains ≡ (guest w uid).domains)
        × ((x : Text) → (guest w' uid).adapters x ≡ ((guest w uid).adapters x || t == x))
  unfolding Mdev.assign_adapter
  adapter_step t w n h = g.adapter_write uid t w n (wrap_ok _ _ h)

  domain_step :
      (t : Text) (w : os.World)
      → IsNumber 4 t
      → (Mdev.assign_domain os uid t w).0 ≡ ok tt
      → let w' = (Mdev.assign_domain os uid t w).1 in
        ((guest w' uid).present ≡ (guest w uid).present)
        × ((guest w' uid).adapters ≡ (guest w uid).adapters)
        × ((x : Text) → (guest w' uid).domains x ≡ ((guest w uid).domains x || t == x))
  unfolding Mdev.assign_domain
  domain_step t w n h = g.domain_write uid t w n (wrap_ok _ _ h)

  -- The ranges over the sets of adapters and domains visit each of their numbers.
  module _ (env : Env os)
      (visits : (w : os.World) (texts : List Text) (t : Text)
        → contains (env.range_texts w texts) t ≡ contains texts t) where
    All-range :
        {P : Text → Type 0} (w : os.World) (texts : List Text)
        → ((t : Text) → contains texts t ≡ true → P t)
        → All P (env.range_texts w texts)
    All-range {P} w texts h =
        All-contains P (env.range_texts w texts) (λ t m. h t (sym (visits w texts t) ∙ m))

    assign_mdev_matrix_ok :
        (adapters domains : List Text) (w : os.World)
        → ((t : Text) → contains adapters t ≡ true → IsNumber 2 t)
        → ((t : Text) → contains domains t ≡ true → IsNumber 4 t)
        → guest w uid ≡ new_guest
        → (assign_mdev_matrix os env uid adapters domains w).0 ≡ ok tt
        → let after = guest (assign_mdev_matrix os env uid adapters domains w).1 uid in
          (after.present ≡ true)
          × ((x : Text) → after.adapters x ≡ contains adapters x)
          × ((x : Text) → after.domains x ≡ contains domains x)
    unfolding assign_mdev_matrix
    assign_mdev_matrix_ok adapters domains w na nd fresh done =
        let each_adapter : Exec os.World MdevError (Unit {0}) =
          λ v. for_each os env (Mdev.assign_adapter os uid) (env.range_texts v adapters) v in
        let each_domain : Exec os.World MdevError (Unit {0}) =
          λ v. for_each os env (Mdev.assign_domain os uid) (env.range_texts v domains) v in
        let v = (each_adapter w).1 in
        let (u, first, e) = bind_ok each_adapter (λ _. each_domain) w tt done in
        let (p, k, a) =
          for_each_ok env 2 (Mdev.assign_adapter os uid) (λ h. h.adapters) (λ h. h.domains)
            adapter_step (env.range_texts w adapters) w (All-range w adapters na) first in
        let (p', k', d) =
          for_each_ok env 4 (Mdev.assign_domain os uid) (λ h. h.domains) (λ h. h.adapters)
            domain_step (env.range_texts v domains) v (All-range v domains nd) (rw e at done) in
        rw e (
          p' ∙ p ∙ ap (λ (h : Guest). h.present) fresh,
          λ x. ground (
            arith,
            ap (λ (s : Text → Bool). s x) k',
            a x,
            visits w adapters x,
            ap (λ (h : Guest). h.adapters x) fresh,
          ),
          λ x. ground (
            arith,
            ap (λ (s : Text → Bool). s x) k,
            d x,
            visits v domains x,
            ap (λ (h : Guest). h.domains x) fresh,
          ),
        )

    control_domains-guest :
        (mode : Text) (domains : List Text) (w : os.World)
        → guest (assign_mdev_control_domains os env uid mode domains w).1 ≡ guest w
    unfolding assign_mdev_control_domains Mdev.assign_control_domain
    control_domains-guest mode domains w =
        let each =
          for_each-Leaves os guest env (Mdev.assign_control_domain os uid)
            (λ t. Leaves-wrap guest assign_control_domain_error (
              Leaves-call guest
                (os.write_file (attribute_path uid (bytes "assign_control_domain"))
                  (bytes "0x" ++ t))
                (g.control_domain_write uid (bytes "0x" ++ t))))
            (env.range_texts w domains) in
        ground (arith, each.at w)

    or_destroy_ok :
        (m : Exec os.World MdevError (Unit {0})) (w : os.World)
        → (or_destroy os env uid m w).0 ≡ ok tt
        → ((m w).0 ≡ ok tt) × ((or_destroy os env uid m w).1 ≡ (m w).1)
    or_destroy_ok m w h = go (m w).0 refl
      where
        go :
            (r : Result MdevError (Unit {0}))
            → (m w).0 ≡ r
            → ((m w).0 ≡ ok tt) × ((or_destroy os env uid m w).1 ≡ (m w).1)
        go (ok t) e = (e, ground arith)
        go (err x) e = absurd (ground arith)

    some_adapter : (c : Collected) (s : IsSpanned c) → contains c.adapters s.some_queue.apid ≡ true
    some_adapter c s = ground (arith, s.spans s.some_queue, s.is_allocated)

    some_domain : (c : Collected) (s : IsSpanned c) → contains c.domains s.some_queue.apqi ≡ true
    some_domain c s = ground (arith, s.spans s.some_queue, s.is_allocated)

    adapters_IsNumber :
        (c : Collected) (s : IsSpanned c) (t : Text) → contains c.adapters t ≡ true → IsNumber 2 t
    adapters_IsNumber c s t m =
        let q : Apqn = record { apid = t; apqi = s.some_queue.apqi } in
        (s.numbers q (sym (s.spans q) ∙ ground (arith, some_domain c s))).0

    domains_IsNumber :
        (c : Collected) (s : IsSpanned c) (t : Text) → contains c.domains t ≡ true → IsNumber 4 t
    domains_IsNumber c s t m =
        let q : Apqn = record { apid = s.some_queue.apid; apqi = t } in
        (s.numbers q (sym (s.spans q) ∙ ground (arith, some_adapter c s))).1

    pub build_mdev_ok :
        (mode : Text) (c : Collected) (w : os.World)
        → IsSpanned c
        → (build_mdev os env uid mode c w).0 ≡ ok tt
        → IsBuilt c (build_mdev os env uid mode c w).1
    unfolding build_mdev make_mdev
    build_mdev_ok mode c w s done =
        let assigned = assign_mdev_matrix os env uid c.adapters c.domains in
        let controlled = assign_mdev_control_domains os env uid mode c.domains in
        let last : Exec os.World PrepareError (Unit {0}) = or_destroy os env uid controlled in
        let fill : Exec os.World PrepareError (Unit {0}) =
          or_destroy os env uid assigned >>= λ _. last in
        let make : Exec os.World PrepareError (Unit {0}) =
          wrap create_mdev (Mdev.create os uid) >>= λ _. fill in
        let switched = switch_queues_to_vfio_ap os env c.allocated in
        let w1 = (switched w).1 in
        let w2 = (Mdev.create os uid w1).1 in
        let w3 = (or_destroy os env uid assigned w2).1 in
        let (u1, r1, e1) = bind_ok switched (λ _. make) w tt done in
        let done1 : (make w1).0 ≡ ok tt = sym (λ i. (e1 i).0) ∙ done in
        let (u2, r2, e2) =
          bind_ok (wrap create_mdev (Mdev.create os uid)) (λ _. fill) w1 tt done1 in
        let done2 : (fill w2).0 ≡ ok tt = sym (λ i. (e2 i).0) ∙ done1 in
        let (u3, r3, e3) = bind_ok (or_destroy os env uid assigned) (λ _. last) w2 tt done2 in
        let done3 : (last w3).0 ≡ ok tt = sym (λ i. (e3 i).0) ∙ done2 in
        let (filled, same) = or_destroy_ok assigned w2 r3 in
        let (_, same') = or_destroy_ok controlled w3 done3 in
        let end : (build_mdev os env uid mode c w).1 ≡ (controlled w3).1 =
          (λ i. (e1 i).1) ∙ (λ i. (e2 i).1) ∙ (λ i. (e3 i).1) ∙ same' in
        let view : guest (build_mdev os env uid mode c w).1 uid ≡ guest (assigned w2).1 uid =
          ap (λ v. guest v uid) end
          ∙ ap (λ (f : Text → Guest). f uid) (control_domains-guest mode c.domains w3)
          ∙ ap (λ v. guest v uid) same in
        let (p, a, d) =
          assign_mdev_matrix_ok c.adapters c.domains w2 (adapters_IsNumber c s)
            (domains_IsNumber c s) (create_ok w1 (wrap_ok create_mdev _ r2)) filled in
        (
          ap (λ (h : Guest). h.present) view ∙ p,
          λ q.
              ap (λ (h : Guest). contains h.rows q) view
              ∙ g.rows_cross (assigned w2).1 uid s.some_queue.apid s.some_queue.apqi
                  (a s.some_queue.apid ∙ (some_adapter c s))
                  (d s.some_queue.apqi ∙ (some_domain c s)) q
              ∙ ground (arith, a q.apid, d q.apqi)
              ∙ s.spans q,
        )
