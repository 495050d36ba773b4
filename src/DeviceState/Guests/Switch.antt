-- ===== src/DeviceState/Guests/Switch.antt =====
-- Switching queues touches no mediated device.
use k8s_cex_dra_driver.Prelude.{Text, List, [], ◌∷◌, ◌++◌, Bool, ◌≡◌, refl, ◌∙◌, arith}
use k8s_cex_dra_driver.Prelude.Exec.{wrap}
use k8s_cex_dra_driver.Os.{Os, FilePath, IoError}
use k8s_cex_dra_driver.Binding.Recovery.{}
use k8s_cex_dra_driver.Mdev.{Apqn}
use k8s_cex_dra_driver.Binding.{
  SwitchError, write_override, clear_override, probe, queue_id, driver_override_path,
  drivers_probe_path, vfio_ap, newline, unbind_queue, switch_to_vfio_ap, switch_to_zcrypt,
  log_override, probe_or_restore,
}
use k8s_cex_dra_driver.DeviceState.Env.{Env}
use k8s_cex_dra_driver.DeviceState.Quiet.{Leaves, Leaves-call, Leaves-wrap, Leaves-bind}
use k8s_cex_dra_driver.DeviceState.Guests.{Guests}
use k8s_cex_dra_driver.DeviceState.Build.{rollback, switch_from, switch_queues_to_vfio_ap}

module _ (os : Os) (g : Guests os) where
  unbind_queue-Leaves : (apid apqi : Text) → Leaves g.guest (unbind_queue os apid apqi)
  unfolding unbind_queue
  unbind_queue-Leaves apid apqi = record {
    at = λ w. g.unbind_write apid apqi (queue_id apid apqi) w;
  }

  override-Leaves :
      (apid apqi text : Text) (f : IoError → SwitchError)
      → Leaves g.guest (wrap f (os.write_file (driver_override_path apid apqi) text))
  override-Leaves apid apqi text f = Leaves-wrap g.guest f (
      Leaves-call g.guest (os.write_file (driver_override_path apid apqi) text)
        (g.override_write apid apqi text))

  switch_to_vfio_ap-Leaves : (apid apqi : Text) → Leaves g.guest (switch_to_vfio_ap os apid apqi)
  unfolding switch_to_vfio_ap
  switch_to_vfio_ap-Leaves apid apqi =
      Leaves-bind g.guest (override-Leaves apid apqi vfio_ap write_override) λ written.
        Leaves-bind g.guest (unbind_queue-Leaves apid apqi) λ unbound. Leaves-wrap g.guest probe (
          Leaves-call g.guest (os.write_file drivers_probe_path (queue_id apid apqi))
            (g.probe_write (queue_id apid apqi)))

  log_override-Leaves :
      (verbose : Bool) (path : FilePath) → Leaves g.guest (log_override os verbose path)
  unfolding log_override
  log_override-Leaves verbose path = record { at = λ w. ground (arith, g.apart.read_file path w) }

  probe_or_restore-Leaves : (apid apqi : Text) → Leaves g.guest (probe_or_restore os apid apqi)
  unfolding probe_or_restore
  probe_or_restore-Leaves apid apqi = record {
    at = λ w.
        let v = (os.write_file drivers_probe_path (queue_id apid apqi) w).1 in
        ground (arith, g.probe_write (queue_id apid apqi) w, g.override_write apid apqi vfio_ap v);
  }

  pub switch_to_zcrypt-Leaves :
      (verbose : Bool) (apid apqi : Text) → Leaves g.guest (switch_to_zcrypt os verbose apid apqi)
  unfolding switch_to_zcrypt
  switch_to_zcrypt-Leaves verbose apid apqi =
      Leaves-bind g.guest (unbind_queue-Leaves apid apqi) λ unbound.
        Leaves-bind g.guest (log_override-Leaves verbose (driver_override_path apid apqi)) λ logged.
          Leaves-bind g.guest (override-Leaves apid apqi newline clear_override) λ cleared.
            Leaves-bind g.guest (log_override-Leaves verbose (driver_override_path apid apqi))
              λ logged_again. probe_or_restore-Leaves apid apqi

  module _ (env : Env os) where
    pub rollback-guest :
        (queues : List Apqn) (w : os.World) → g.guest (rollback os env queues w) ≡ g.guest w
    unfolding rollback
    rollback-guest [] w = refl
    rollback-guest (q ∷ queues) w =
        rollback-guest queues _ ∙ (switch_to_zcrypt-Leaves env.verbose q.apid q.apqi).at w

    switch_from-guest :
        (queues switched : List Apqn) (w : os.World)
        → g.guest (switch_from os env queues switched w).1 ≡ g.guest w
    unfolding switch_from
    switch_from-guest [] switched w = refl
    switch_from-guest (q ∷ queues) switched w =
        let v = (switch_to_vfio_ap os q.apid q.apqi w).1 in
        ground (
          arith,
          rollback-guest switched w,
          (switch_to_vfio_ap-Leaves q.apid q.apqi).at w,
          switch_from-guest queues (switched ++ (q ∷ [])) v,
          rollback-guest (switched ++ (q ∷ [])) v,
        )

    pub switch_queues-guest :
        (allocated : List Apqn) (w : os.World)
        → g.guest (switch_queues_to_vfio_ap os env allocated w).1 ≡ g.guest w
    unfolding switch_queues_to_vfio_ap
    switch_queues-guest allocated w = switch_from-guest (env.range_apqns w allocated) [] w
