-- ===== src/DeviceState/Guests/Apart.antt =====
-- Building or removing one mdev leaves the others alone.
use k8s_cex_dra_driver.Prelude.{Text, List, [], ◌∷◌, ◌++◌, false, ◌≡◌, arith, ap, ◌==◌, text_eq}
use k8s_cex_dra_driver.Prelude.Strings.{bytes}
use k8s_cex_dra_driver.Prelude.Exec.{Exec}
use k8s_cex_dra_driver.Os.{Os}
use k8s_cex_dra_driver.Mdev
use k8s_cex_dra_driver.Mdev.{
  Apqn, apqn_eq, MdevError, exists, attribute_path, vfio_ap_matrix_path, assign_adapter_error,
  assign_domain_error, assign_control_domain_error,
}
use k8s_cex_dra_driver.DeviceState.Env.{Env}
use k8s_cex_dra_driver.DeviceState.Quiet.{
  Leaves, Leaves-call, Leaves-wrap, Leaves-bind, for_each-Leaves,
}
use k8s_cex_dra_driver.DeviceState.Guests.{Guest, Guests}
use k8s_cex_dra_driver.DeviceState.Build.{
  for_each, switch_queues_to_vfio_ap, assign_mdev_matrix, assign_mdev_control_domains, or_destroy,
  destroy_partial_mdev, make_mdev, build_mdev,
}
use k8s_cex_dra_driver.DeviceState.Allocation.{Collected, create_mdev}
use k8s_cex_dra_driver.DeviceState.Guests.Switch.{switch_queues-guest}

module _ (os : Os) (g : Guests os) (uid : Text) where
  open g use {guest}

  -- The calls on one mdev leave the others alone.
  module _ (other : Text) (apart : (uid == other) ≡ false) where
    abbrev guest_at : os.World → Guest
    guest_at w = guest w other

    create-Leaves : Leaves guest_at (Mdev.create os uid)
    unfolding Mdev.create
    create-Leaves = record { at = λ w. ground (arith, g.create_write uid w other) }

    attribute-Leaves :
        (name text : Text) → Leaves guest_at (os.write_file (attribute_path uid name) text)
    attribute-Leaves name text = record { at = λ w. g.attribute_other uid name text w other apart }

    assign_adapter-Leaves : (t : Text) → Leaves guest_at (Mdev.assign_adapter os uid t)
    unfolding Mdev.assign_adapter
    assign_adapter-Leaves t =
        Leaves-wrap guest_at assign_adapter_error (attribute-Leaves (bytes "assign_adapter") _)

    assign_domain-Leaves : (t : Text) → Leaves guest_at (Mdev.assign_domain os uid t)
    unfolding Mdev.assign_domain
    assign_domain-Leaves t =
        Leaves-wrap guest_at assign_domain_error (attribute-Leaves (bytes "assign_domain") _)

    assign_control_domain-Leaves :
        (t : Text) → Leaves guest_at (Mdev.assign_control_domain os uid t)
    unfolding Mdev.assign_control_domain
    assign_control_domain-Leaves t =
        Leaves-wrap guest_at assign_control_domain_error
          (attribute-Leaves (bytes "assign_control_domain") _)

    pub destroy-Leaves : Leaves guest_at (Mdev.destroy os uid)
    unfolding Mdev.destroy exists
    destroy-Leaves = record {
      at = λ w.
          let path = vfio_ap_matrix_path ++ (uid ∷ []) in
          let kept : guest (os.stat path w).1 other ≡ guest w other =
            ap (λ (f : Text → Guest). f other) (g.apart.stat path w) in
          ground (arith, kept, g.remove_write uid (os.stat path w).1 other);
    }

    module _ (env : Env os) where
      assign_mdev_matrix-Leaves :
          (adapters domains : List Text)
          → Leaves guest_at (assign_mdev_matrix os env uid adapters domains)
      unfolding assign_mdev_matrix
      assign_mdev_matrix-Leaves adapters domains =
          Leaves-bind guest_at
            (Leaves-call guest_at
              (λ w. for_each os env (Mdev.assign_adapter os uid) (env.range_texts w adapters) w)
              (λ w.
                (for_each-Leaves os guest_at env _ assign_adapter-Leaves
                    (env.range_texts w adapters)).at
                  w))
            λ assigned.
              Leaves-call guest_at
                (λ w. for_each os env (Mdev.assign_domain os uid) (env.range_texts w domains) w)
                (λ w.
                  (for_each-Leaves os guest_at env _ assign_domain-Leaves
                      (env.range_texts w domains)).at
                    w)

      assign_mdev_control_domains-Leaves :
          (mode : Text) (domains : List Text)
          → Leaves guest_at (assign_mdev_control_domains os env uid mode domains)
      unfolding assign_mdev_control_domains
      assign_mdev_control_domains-Leaves mode domains = record {
        at = λ w. ground (
          arith,
          (for_each-Leaves os guest_at env (Mdev.assign_control_domain os uid)
                assign_control_domain-Leaves (env.range_texts w domains)).at
              w,
        );
      }

      or_destroy-Leaves :
          (m : Exec os.World MdevError (Unit {0}))
          → Leaves guest_at m
          → Leaves guest_at (or_destroy os env uid m)
      or_destroy-Leaves m h = record {
        at = λ w. unfold destroy_partial_mdev in ground (arith, h.at w, destroy-Leaves.at (m w).1);
      }

      pub build_mdev-Leaves :
          (mode : Text) (c : Collected) → Leaves guest_at (build_mdev os env uid mode c)
      unfolding build_mdev make_mdev
      build_mdev-Leaves mode c =
          Leaves-bind guest_at
            (Leaves-call guest_at (switch_queues_to_vfio_ap os env c.allocated) (λ w.
              ap (λ (f : Text → Guest). f other) (switch_queues-guest os g env c.allocated w)))
            λ switched.
              Leaves-bind guest_at (Leaves-wrap guest_at create_mdev create-Leaves) λ created.
                Leaves-bind guest_at
                  (or_destroy-Leaves (assign_mdev_matrix os env uid c.adapters c.domains)
                    (assign_mdev_matrix-Leaves c.adapters c.domains))
                  λ assigned.
                    or_destroy-Leaves (assign_mdev_control_domains os env uid mode c.domains)
                      (assign_mdev_control_domains-Leaves mode c.domains)
