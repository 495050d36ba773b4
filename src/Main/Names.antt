-- ===== src/Main/Names.antt =====
-- The names of the devices against the limit of the resource API.
use k8s_cex_dra_driver.Prelude.{
  ℕ, ◌+◌, ◌≤◌, Text, [], ◌∷◌, ◌++◌, true, Option, ◌≡◌, inl, inr, refl, ◌==◌, text_eq, text_beq_iff,
  Bool-cases, length, length-append, arith,
}
use k8s_cex_dra_driver.Prelude.Exec.{ok}
use k8s_cex_dra_driver.Prelude.Strings.{bytes, to_lower}
use k8s_cex_dra_driver.Os.{Os}
use k8s_cex_dra_driver.Sysfs.SysInfo.{dashed, machine_id}
use k8s_cex_dra_driver.Sysfs.SysInfo.Printed.{
  SysInfo, IsSysInfo, print_sysinfo, machine_id-print_sysinfo,
}
use k8s_cex_dra_driver.DeviceState.Env.{Env}
use k8s_cex_dra_driver.DeviceState.Allocation.{nothing_collected}
use k8s_cex_dra_driver.DeviceState.Published.Pools.{in_pools}
use k8s_cex_dra_driver.Driver.{Driver}
use k8s_cex_dra_driver.Driver.Start.{resolve}
use k8s_cex_dra_driver.Driver.Loop.{Reach}
use k8s_cex_dra_driver.Driver.Offers.{IsFoundIfOffered, reachable_lookup}
use k8s_cex_dra_driver.Main.{
  Flags, Libraries, validate_machine_id, max_machine_id_len, new_driver, driver_config,
}

-- The widths of the fields in the block that the machine gives its identity in.
abbrev pub IsNarrow : SysInfo → Type 0
IsNarrow i =
    (length i.manufacturer.value ≤ 16)
    × (length i.machine_type.value ≤ 4)
    × (length i.plant.value ≤ 4)
    × (length i.sequence_code.value ≤ 16)

length-to_lower : (s : Text) → length (to_lower s) ≡ length s
unfolding to_lower
length-to_lower [] = refl
length-to_lower (c ∷ s) = omega (arith, length-to_lower s)

length-dashed :
    (m t p s : Text) → length (dashed m t p s) ≡ length m + length t + length p + length s + 3
unfolding dashed
length-dashed m t p s = omega (
  arith,
  length-append m (b'-' ∷ (t ++ (b'-' ∷ (p ++ (b'-' ∷ s))))),
  length-append t (b'-' ∷ (p ++ (b'-' ∷ s))),
  length-append p (b'-' ∷ s),
)

module _ {os : Os} (lib : Libraries os) where
  validate_machine_id-length : (id : Text) → validate_machine_id lib id ≡ ok tt → length id ≤ 55
  unfolding validate_machine_id max_machine_id_len bytes
  validate_machine_id-length id h = ground (arith, text_beq_iff id [])

  -- What the kernel prints, where no identifier is configured.
  abbrev pub HasSysInfo : Flags → os.World → Type 0
  HasSysInfo flags w =
      flags.machine_id ≡ []
      → (i : SysInfo) × IsSysInfo i
        × IsNarrow i
        × ((os.read_file flags.sysinfo_path w).0 ≡ ok (print_sysinfo i))

  resolve-length :
      (flags : Flags) (heartbeat : Option ℕ) (w : os.World) (id : Text)
      → validate_machine_id lib flags.machine_id ≡ ok tt
      → HasSysInfo flags w
      → (resolve os (driver_config lib flags heartbeat) w).0 ≡ ok id
      → length id ≤ 55
  unfolding resolve machine_id driver_config
  resolve-length flags heartbeat w id valid info h = elim (Bool-cases (flags.machine_id == [])) [
    | inr given ↦
        let same : flags.machine_id ≡ id = ground arith in
        rw (← same) (validate_machine_id-length flags.machine_id valid)
    | inl empty ↦
        let (i, is, narrow, reads) = info ((text_beq_iff flags.machine_id []).0 empty) in
        let same : to_lower
              (dashed i.manufacturer.value i.machine_type.value i.plant.value i.sequence_code.value)
            ≡ id =
          ground (arith, machine_id-print_sysinfo i is) in
        rw (← same) (
          omega (
            arith,
            length-to_lower (
                dashed i.manufacturer.value i.machine_type.value i.plant.value
                  i.sequence_code.value),
            length-dashed i.manufacturer.value i.machine_type.value i.plant.value
                i.sequence_code.value,
          ))
  ]

  module _ (env : Env os) (flags : Flags) (client : lib.Client) (heartbeat : Option ℕ) where
    -- If the machine identifier passes, and where none is configured the kernel prints the identity of
    -- the machine in fields of the widths of its block, every device
    -- that a started driver ever offers has a name of at most 63 characters, the limit of the API.
    pub offered_name_fits :
        (w w' v : os.World) (d e : Driver) (name : Text)
        → validate_machine_id lib flags.machine_id ≡ ok tt
        → HasSysInfo flags w
        → new_driver lib flags client heartbeat w ≡ (ok d, w')
        → Reach os env lib.sha256_hex lib.publish lib.clock (d, w') (e, v)
        → in_pools e.state.driver_resources name ≡ true
        → length name ≤ 63
    offered_name_fits w w' v d e name valid info started r offered =
        let (id, resolved, found, _) =
          reachable_lookup os env lib.sha256_hex lib.verbose (lib.start client) lib.publish
            lib.clock (driver_config lib flags heartbeat) w w' v d e name nothing_collected started
            r in
        bounded id (resolve-length flags heartbeat w id valid info resolved) found
      where
        bounded :
            (id : Text)
            → length id ≤ 55
            → IsFoundIfOffered id e.state name nothing_collected
            → length name ≤ 63
        bounded id short found = ground arith
