-- ===== src/Tests/Machine.antt =====
-- The checks, the system information, the gates, the hash and the types of cards at concrete data.
use k8s_cex_dra_driver.Prelude.{
  map, All, Text, List, [], ◌∷◌, true, none, some, ◌≡◌, ◌⊎◌, refl, text_beq, IsNodup, contains,
  text_eq, arith,
}
use k8s_cex_dra_driver.Prelude.Exec.{ok}
use k8s_cex_dra_driver.Prelude.Dict.{Dict, get, put}
use k8s_cex_dra_driver.Prelude.Strings.{is_space, bytes, all, to_lower, split, join, trim_space}
use k8s_cex_dra_driver.Prelude.Sort.{nothing, keep, exchange}
use k8s_cex_dra_driver.Resource.{Device}
use k8s_cex_dra_driver.Sysfs.Mkvp.{cca, cca_mkvp_key_map, parse_mkvps}
use k8s_cex_dra_driver.Sysfs.Mkvp.Lines.{Register, IsRegister, print_registers}
use k8s_cex_dra_driver.Sysfs.Mkvp.Printed.{read_registers, parse_mkvps-print_registers}
use k8s_cex_dra_driver.Sysfs.SysInfo.{dashed, machine_id_from_sysinfo}
use k8s_cex_dra_driver.Sysfs.SysInfo.Printed.{print_sysinfo, machine_id-print_sysinfo}
use k8s_cex_dra_driver.Preflight.Checks.Masks.{is_hex}
use k8s_cex_dra_driver.Os.{Os}
use k8s_cex_dra_driver.Features.{
  container_workload, virtual_machine_workload, default_feature_gates, set,
}
use k8s_cex_dra_driver.Features.Locked.{
  Setting, IsSetting, print_setting, is_locked, unlocked, locked_warnings, set-unlocked,
}
use k8s_cex_dra_driver.DeviceState.Allocation.{apid_name, apqi_name}
use k8s_cex_dra_driver.DeviceState.Hash.{compute_devices_hash}
use k8s_cex_dra_driver.DeviceState.Hash.Order.{AreAlikeCards, compute_devices_hash-Reorder}
use k8s_cex_dra_driver.Sample.Card.{machine, machine-IsSysInfo, all_ones, card_os, gates}
use k8s_cex_dra_driver.Sample.Claim.{device_of, first, second}

machine_id-print_sysinfo_example :
    machine_id_from_sysinfo (print_sysinfo machine)
    ≡ ok (to_lower (dashed (bytes "IBM") (bytes "3931") (bytes "02") (bytes "00000000000A8F67")))
machine_id-print_sysinfo_example = machine_id-print_sysinfo machine machine-IsSysInfo

digits : all is_hex all_ones ≡ true
unfolding all bytes
digits = refl

-- A gate that is locked, one that is not, and nothing behind the last comma
abbrev settings : List Setting
settings =
    record { gate = bytes "Grown"; value = some (bytes "false") }
    ∷ record { gate = bytes "ContainerWorkload"; value = some (bytes "true") }
    ∷ record { gate = []; value = none }
    ∷ []

settings-IsSetting : All IsSetting settings
unfolding all bytes print_setting
settings-IsSetting = ((refl, refl), ((refl, refl), ((refl, refl), tt)))

set-unlocked_example :
    let kept = unlocked (gates.get_all tt) settings in
    let (r, warnings, g') = set gates (join b',' (map print_setting settings)) tt in
    ((r, g') ≡ gates.set (join b',' kept) tt)
    × (warnings ≡ locked_warnings (gates.get_all tt) settings)
    × ((kept ≡ []) ⊎ (split b',' (join b',' kept) ≡ kept))
set-unlocked_example = set-unlocked gates settings tt settings-IsSetting

-- The gate that is locked takes no setting.
locked_ignored : unlocked (gates.get_all tt) settings ≡ bytes "ContainerWorkload=true" ∷ []
unfolding unlocked is_locked print_setting default_feature_gates bytes text_beq trim_space
    container_workload virtual_machine_workload
locked_ignored = refl

abbrev other_way : Device
other_way = record {
  name = bytes "m-02-0008";
  attributes =
      (apqi_name, record { string_value = some second.apqi; int_value = none })
      ∷ (apid_name, record { string_value = some second.apid; int_value = none })
      ∷ [];
}

abbrev one_way : Device
one_way = device_of (bytes "m-02-0008") second

abbrev cards : Dict Text (List Device)
cards =
    (bytes "card02", one_way ∷ []) ∷ (bytes "card03", device_of (bytes "m-03-0008") first ∷ []) ∷ []

abbrev between : Dict Text (List Device)
between =
    (bytes "card03", device_of (bytes "m-03-0008") first ∷ []) ∷ (bytes "card02", one_way ∷ []) ∷ []

abbrev others : Dict Text (List Device)
others =
    (bytes "card03", device_of (bytes "m-03-0008") first ∷ [])
    ∷ (bytes "card02", other_way ∷ [])
    ∷ []

attributes_named : IsNodup (apid_name ∷ apqi_name ∷ [])
unfolding contains apid_name apqi_name bytes text_beq
attributes_named = (refl, (refl, tt))

cards_named : IsNodup (bytes "card02" ∷ bytes "card03" ∷ [])
unfolding contains bytes text_beq
cards_named = (refl, (refl, tt))

between-others : AreAlikeCards between others
between-others = (
  refl,
  (refl, keep _ (keep _ nothing), attributes_named, tt),
  (refl, (refl, exchange _ _ [], attributes_named, tt), tt),
)

compute_devices_hash-Reorder_example :
    compute_devices_hash (λ text. text) cards ≡ compute_devices_hash (λ text. text) others
compute_devices_hash-Reorder_example =
    compute_devices_hash-Reorder (λ text. text) cards between others (exchange _ _ [])
      between-others cards_named

abbrev registers : List Register
registers =
    record {
      key = bytes "APKA CUR";
      state = bytes "valid";
      pattern = some (bytes "755cb8e7740dae51");
    }
    ∷ record { key = bytes "ASYM NEW"; state = bytes "empty"; pattern = none }
    ∷ []

registers-IsRegister : All IsRegister registers
unfolding bytes all trim_space is_space text_beq
registers-IsRegister = (
  (refl, refl, refl, refl, (λ e. ground arith), refl, refl),
  ((refl, refl, refl, refl, (λ e. ground arith), refl, tt), tt),
)

abbrev register_os : Os
register_os = record card_os { read_file = λ p n. (ok (print_registers registers), n) }

parse_mkvps-print_registers_example :
    parse_mkvps register_os [] cca 0 ≡ (read_registers cca registers [], 0)
parse_mkvps-print_registers_example =
    parse_mkvps-print_registers register_os [] cca registers 0 0 refl registers-IsRegister

read_registers_lem :
    read_registers cca registers []
    ≡ ok (
        (bytes "cex.cca.domain.ibm.com/mkvp_apka_cur", bytes "755cb8e7740dae51")
        ∷ (bytes "cex.cca.domain.ibm.com/mkvp_asym_new", [])
        ∷ [])
unfolding read_registers cca cca_mkvp_key_map get put bytes text_beq
read_registers_lem = refl
