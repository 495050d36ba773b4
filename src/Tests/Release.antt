-- ===== src/Tests/Release.antt =====
-- A claim that is released on a small node.
use k8s_cex_dra_driver.Prelude.{
  true, some, ap, inl, map, contains, insert, Bool, false, ◌⊎◌, ◌≢◌, arith, ◌==◌, text_eq,
  if◌then◌else◌, Text, [], ◌∷◌, ◌≡◌, refl, text_beq,
}
use k8s_cex_dra_driver.Prelude.Exec.{ok, is_ok}
use k8s_cex_dra_driver.Prelude.Strings.{all, bytes}
use k8s_cex_dra_driver.Mdev.{Apqn}
use k8s_cex_dra_driver.Binding.Kernel.{SameQueue}
use k8s_cex_dra_driver.DeviceState.Rollback.{id_of, Lacks}
use k8s_cex_dra_driver.DeviceState.Unprepare.{unprepare}
use k8s_cex_dra_driver.DeviceState.Unprepare.Matrix.{
  IsReadable, unprepare_spares, matrix_queue-IsReturned,
}
use k8s_cex_dra_driver.DeviceState.Unprepare.Steps.{destroyed}
use k8s_cex_dra_driver.DeviceState.Unprepare.Returned.{unreturned, IsReturned}
use k8s_cex_dra_driver.Cdi.{gc_spec, spec_path}
use k8s_cex_dra_driver.Cdi.Collect.{gc_spec-spec_path}
use k8s_cex_dra_driver.Sample.Node.{node_os, bus}
use k8s_cex_dra_driver.Sample.Claim.{plain_env, state}
use k8s_cex_dra_driver.Sample.Machine.{
  Machine, machine_os, machine_guests, machine_guest, machine_readable,
}
use k8s_cex_dra_driver.Sample.Machine.Queues.{machine_kernel}
use k8s_cex_dra_driver.Sample.Host.{hex_rows}
use k8s_cex_dra_driver.DeviceState.Env.{Env}
use k8s_cex_dra_driver.DeviceState.Guests.{Guest}
use k8s_cex_dra_driver.Mdev.Matrix.{is_hex_digit}
use k8s_cex_dra_driver.DeviceState.Matrix.{cross}

abbrev env : Env machine_os
env = plain_env machine_os

abbrev claim_uid : Text
claim_uid = bytes "6a1e"

abbrev neighbour : Text
neighbour = bytes "02.0008"

abbrev freed : Apqn
freed = record { apid = bytes "03"; apqi = bytes "0042" }

-- The bus, with an mdev for the queue that is handed to vfio-ap
abbrev held : Machine
held = (λ uuid. some (record { adapters = bytes "03" ∷ []; domains = bytes "0042" ∷ [] }), bus)

matrix_of_held : (machine_guests.guest held claim_uid).rows ≡ freed ∷ []
unfolding hex_rows contains insert bytes text_beq all is_hex_digit cross
matrix_of_held = ap (λ (h : Guest). h.rows) (machine_guest held claim_uid)

held_is_there : (machine_guests.guest held claim_uid).present ≡ true
held_is_there = ap (λ (h : Guest). h.present) (machine_guest held claim_uid)

held-IsReadable :
    IsReadable machine_os machine_guests machine_kernel env state claim_uid neighbour held
held-IsReadable = (held_is_there, machine_readable claim_uid)

neighbour_is_no_row : Lacks neighbour (machine_guests.guest held claim_uid).rows
unfolding bytes text_beq
neighbour_is_no_row = rw matrix_of_held (refl, tt)

unprepare_spares_example :
    SameQueue machine_os machine_kernel neighbour held
      (unprepare machine_os env state claim_uid held).1
unprepare_spares_example =
    unprepare_spares machine_os machine_guests machine_kernel env state claim_uid neighbour held
      (inl (held-IsReadable, neighbour_is_no_row, (freed, [], matrix_of_held)))

abbrev freed_name : Text
freed_name = bytes "03.0042"

matrix_queue-IsReturned_example :
    let r = unprepare machine_os env state claim_uid held in
    let matrix = (machine_guests.guest held claim_uid).rows in
    ((is_ok r.0 ≡ false) × SameQueue machine_os machine_kernel freed_name held r.1)
    ⊎ ((r.0 ≡ ok tt)
        × ((contains (map id_of matrix) freed_name ≡ false)
            ⊎ (contains
                  (unreturned machine_os machine_kernel env matrix
                    (destroyed machine_os env state claim_uid held))
                  freed_name
                ≡ true)
            ⊎ IsReturned machine_os machine_kernel env freed_name r.1))
matrix_queue-IsReturned_example =
    matrix_queue-IsReturned machine_os machine_guests machine_kernel env state claim_uid freed_name
      held held-IsReadable

abbrev live_claims : Text → node_os.World → Bool × node_os.World
live_claims uid n = (uid == bytes "6a1e", n)

claim_is_named : claim_uid ≢ []
unfolding bytes
claim_is_named e = ground arith

gc_spec-spec_path_example :
    gc_spec node_os live_claims (spec_path (bytes "/var/run/cdi") claim_uid) bus ≡ (
      let (alive, n) = live_claims claim_uid bus in
      if alive then n else (node_os.remove (spec_path (bytes "/var/run/cdi") claim_uid) n).1)
gc_spec-spec_path_example =
    gc_spec-spec_path node_os live_claims (bytes "/var/run/cdi") claim_uid bus claim_is_named
