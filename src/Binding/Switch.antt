-- ===== src/Binding/Switch.antt =====
-- What the two switches leave behind, whatever the kernel answers on the way.
use k8s_cex_dra_driver.Prelude.{
  Text, [], Bool, true, false, ◌&&◌, none, ◌≡◌, refl, ◌⊎◌, ◌==◌, text_eq, text_beq, text_beq_iff,
  arith, ==_refl, if◌then◌else◌,
}
use k8s_cex_dra_driver.Prelude.Exec.{ok, err, is_ok}
use k8s_cex_dra_driver.Prelude.Strings.{bytes}
use k8s_cex_dra_driver.Os.{Os, FilePath}
use k8s_cex_dra_driver.Binding.{
  queue_id, driver_override_path, drivers_probe_path, vfio_ap, newline, SwitchError, unbind_queue,
  switch_to_vfio_ap, switch_to_zcrypt, log_override, probe_or_restore,
}
use k8s_cex_dra_driver.Binding.Kernel.{Kernel, is_tracked}

nil-ne-vfio_ap : text_beq [] vfio_ap ≡ false
unfolding vfio_ap bytes text_beq
nil-ne-vfio_ap = refl

module _ (os : Os) (k : Kernel os) (apid apqi : Text) where
  open k use {
    override, driver, attach, set_marker, set_newline, unbind_write, unbind_absent, probe_write,
    read_file_same,
  }

  unbind_queue_lem :
      (w : os.World) (id : Text)
      → let r = unbind_queue os apid apqi w in
        (override r.1 id ≡ override w id)
        × (driver r.1 id ≡ (if is_ok r.0 && (queue_id apid apqi == id) then none else driver w id))
  unfolding unbind_queue
  unbind_queue_lem w id = ground (
    arith,
    unbind_write apid apqi w id,
    unbind_absent apid apqi w,
    text_beq_iff (queue_id apid apqi) id,
  )

  -- The three writes of a switch to vfio-ap, in order.
  module _ (w : os.World) where
    abbrev marked : os.World
    marked = (os.write_file (driver_override_path apid apqi) vfio_ap w).1

    abbrev unbound : os.World
    unbound = (unbind_queue os apid apqi marked).1

  -- A switch to vfio-ap that returns an error or not, at whichever step, loses sight of no queue:
  -- every queue that had a driver or the drain's marker has one of them afterwards.
  pub switch_to_vfio_ap-is_tracked :
      (w : os.World) (id : Text)
      → is_tracked os k w id ≡ true
      → is_tracked os k (switch_to_vfio_ap os apid apqi w).1 id ≡ true
  unfolding is_tracked switch_to_vfio_ap
  switch_to_vfio_ap-is_tracked w id h = ground (
    arith,
    set_marker apid apqi w id,
    unbind_queue_lem (marked w) id,
    probe_write apid apqi (unbound w) id,
    ==_refl vfio_ap,
  )

  -- A switch that succeeds leaves the marker on its queue, and the driver that the bus attaches for
  -- it.
  pub switch_to_vfio_ap_ok :
      (w : os.World)
      → (switch_to_vfio_ap os apid apqi w).0 ≡ ok tt
      → let w' = (switch_to_vfio_ap os apid apqi w).1 in
        (override w' (queue_id apid apqi) ≡ vfio_ap)
        × (driver w' (queue_id apid apqi) ≡ attach vfio_ap)
  unfolding switch_to_vfio_ap
  switch_to_vfio_ap_ok w h = ground (
    arith,
    set_marker apid apqi w (queue_id apid apqi),
    unbind_queue_lem (marked w) (queue_id apid apqi),
    probe_write apid apqi (unbound w) (queue_id apid apqi),
    ==_refl (queue_id apid apqi),
  )

  module _ (w : os.World) (id : Text) (other : (queue_id apid apqi == id) ≡ false) where
    -- A switch to vfio-ap leaves the override and the driver of every other queue alone.
    pub switch_to_vfio_ap_other :
        let w' = (switch_to_vfio_ap os apid apqi w).1 in
        (override w' id ≡ override w id) × (driver w' id ≡ driver w id)
    unfolding switch_to_vfio_ap
    switch_to_vfio_ap_other = ground (
      arith,
      set_marker apid apqi w id,
      unbind_queue_lem (marked w) id,
      probe_write apid apqi (unbound w) id,
    )

  log_override_lem :
      (verbose : Bool) (p : FilePath) (w : os.World) (id : Text)
      → let w' = (log_override os verbose p w).1 in
        (override w' id ≡ override w id) × (driver w' id ≡ driver w id)
  unfolding log_override
  log_override_lem verbose p w id = ground (arith, read_file_same p w id)

  log_override_ok :
      (verbose : Bool) (p : FilePath) (w : os.World) → (log_override os verbose p w).0 ≡ ok tt
  unfolding log_override
  log_override_ok verbose p w = ground arith

  -- The worlds between the steps of a switch back to zcrypt.
  module _ (verbose : Bool) (w : os.World) where
    abbrev pub detached : os.World
    detached = (unbind_queue os apid apqi w).1

    abbrev pub read_before : os.World
    read_before = (log_override os verbose (driver_override_path apid apqi) detached).1

    abbrev cleared : os.World
    cleared = (os.write_file (driver_override_path apid apqi) newline read_before).1

    abbrev read_after : os.World
    read_after = (log_override os verbose (driver_override_path apid apqi) cleared).1

    abbrev pub probed : os.World
    probed = (os.write_file drivers_probe_path (queue_id apid apqi) read_after).1

    -- A switch that succeeds leaves no override on its queue, and the driver that the bus attaches
    -- when there is none.
    pub switch_to_zcrypt_ok :
        (switch_to_zcrypt os verbose apid apqi w).0 ≡ ok tt
        → let w' = (switch_to_zcrypt os verbose apid apqi w).1 in
          (override w' (queue_id apid apqi) ≡ []) × (driver w' (queue_id apid apqi) ≡ attach [])
    unfolding switch_to_zcrypt probe_or_restore
    switch_to_zcrypt_ok h = ground (
      arith,
      unbind_queue_lem w (queue_id apid apqi),
      log_override_lem verbose (driver_override_path apid apqi) detached (queue_id apid apqi),
      log_override_ok verbose (driver_override_path apid apqi) detached,
      set_newline apid apqi read_before (queue_id apid apqi),
      log_override_lem verbose (driver_override_path apid apqi) cleared (queue_id apid apqi),
      log_override_ok verbose (driver_override_path apid apqi) cleared,
      probe_write apid apqi read_after (queue_id apid apqi),
      ==_refl (queue_id apid apqi),
    )

    -- A switch back to zcrypt leaves the override and the driver of every other queue alone.
    pub switch_to_zcrypt_other :
        (id : Text)
        → (queue_id apid apqi == id) ≡ false
        → let w' = (switch_to_zcrypt os verbose apid apqi w).1 in
          (override w' id ≡ override w id) × (driver w' id ≡ driver w id)
    unfolding switch_to_zcrypt probe_or_restore
    switch_to_zcrypt_other id other = ground (
      arith,
      unbind_queue_lem w id,
      log_override_lem verbose (driver_override_path apid apqi) detached id,
      log_override_ok verbose (driver_override_path apid apqi) detached,
      set_newline apid apqi read_before id,
      log_override_lem verbose (driver_override_path apid apqi) cleared id,
      log_override_ok verbose (driver_override_path apid apqi) cleared,
      probe_write apid apqi read_after id,
      set_marker apid apqi probed id,
    )

    -- A switch of a marked queue that fails keeps the marker for the drain, unless the write that
    -- puts it back after the failed probe fails too.
    pub switch_to_zcrypt_err :
        {e : SwitchError}
        → override w (queue_id apid apqi) ≡ vfio_ap
        → (switch_to_zcrypt os verbose apid apqi w).0 ≡ err e
        → (override (switch_to_zcrypt os verbose apid apqi w).1 (queue_id apid apqi) ≡ vfio_ap)
          ⊎ (is_ok (os.write_file (driver_override_path apid apqi) vfio_ap probed).0 ≡ false)
    unfolding switch_to_zcrypt probe_or_restore
    switch_to_zcrypt_err m h = ground (
      arith,
      unbind_queue_lem w (queue_id apid apqi),
      log_override_lem verbose (driver_override_path apid apqi) detached (queue_id apid apqi),
      log_override_ok verbose (driver_override_path apid apqi) detached,
      set_newline apid apqi read_before (queue_id apid apqi),
      log_override_lem verbose (driver_override_path apid apqi) cleared (queue_id apid apqi),
      log_override_ok verbose (driver_override_path apid apqi) cleared,
      probe_write apid apqi read_after (queue_id apid apqi),
      set_marker apid apqi probed (queue_id apid apqi),
      ==_refl (queue_id apid apqi),
    )

    -- A queue with a driver and no override, whose override cannot be written, is lost to every pool
    -- by a switch back to zcrypt: it ends unbound, without the marker, and the switch has failed.
    pub switch_to_zcrypt_loses :
        override w (queue_id apid apqi) ≡ []
        → (unbind_queue os apid apqi w).0 ≡ ok tt
        → is_ok (os.write_file (driver_override_path apid apqi) newline read_before).0 ≡ false
        → (is_ok (switch_to_zcrypt os verbose apid apqi w).0 ≡ false)
          × (is_tracked os k (switch_to_zcrypt os verbose apid apqi w).1 (queue_id apid apqi)
              ≡ false)
    unfolding switch_to_zcrypt probe_or_restore is_tracked
    switch_to_zcrypt_loses o u c = ground (
      arith,
      unbind_queue_lem w (queue_id apid apqi),
      log_override_lem verbose (driver_override_path apid apqi) detached (queue_id apid apqi),
      log_override_ok verbose (driver_override_path apid apqi) detached,
      set_newline apid apqi read_before (queue_id apid apqi),
      ==_refl (queue_id apid apqi),
      nil-ne-vfio_ap,
    )
