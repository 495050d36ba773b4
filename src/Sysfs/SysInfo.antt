-- ===== src/Sysfs/SysInfo.antt =====
-- internal/sysfs/reader.go: the machine identifier, from the fields of /proc/sysinfo. Letters outside
-- ASCII are kept as they are.
pub mod Printed
use k8s_cex_dra_driver.Prelude.{
  ℕ, Text, List, [], ◌∷◌, ◌++◌, Bool, true, false, not, ◌&&◌, ◌||◌, Option, none, some, ◌==◌,
  text_eq, nat_beq, leb, if◌then◌else◌,
}
use k8s_cex_dra_driver.Prelude.Exec.{Result, ok, err, Exec}
use k8s_cex_dra_driver.Prelude.Strings.{bytes, has_prefix, trim_prefix, to_lower}
use k8s_cex_dra_driver.Os.{Os, FilePath, IoError}

-- The class `\s` of Go's regular expressions, which lacks the vertical tab.
unfoldable pub is_re_space : ℕ → Bool
is_re_space c = nat_beq c 9 || (nat_beq c 10 || (nat_beq c 12 || (nat_beq c 13 || nat_beq c 32)))

-- `\s*`, as far as it goes
unfoldable pub skip_spaces : Text → Text
unfolding is_re_space
skip_spaces [] = []
skip_spaces (c ∷ s) = let rest = skip_spaces s in if is_re_space c then rest else c ∷ s

-- `\S*`, as far as it goes
unfoldable pub word : Text → Text
unfolding is_re_space
word [] = []
word (c ∷ s) = let rest = word s in if is_re_space c then [] else c ∷ rest

abbrev pub starts_with_space : Text → Bool
starts_with_space [] = false
starts_with_space (c ∷ s) = is_re_space c

abbrev pub non_empty : Text → Option Text
non_empty [] = none
non_empty (c ∷ s) = some (c ∷ s)

-- The group of `key\s+(\S+)` matched at the start of the text
unfoldable pub match_here : Text → Text → Option Text
unfolding skip_spaces word
match_here key s =
    if has_prefix s key && starts_with_space (trim_prefix s key)
    then non_empty (word (skip_spaces (trim_prefix s key)))
    else none

-- The leftmost match; "" without one.
unfoldable pub parse_sysinfo_field : Text → Text → Text
unfolding match_here
parse_sysinfo_field key [] = []
parse_sysinfo_field key (c ∷ s) =
    let rest = parse_sysinfo_field key s in
    elim (match_here key (c ∷ s)) [ none ↦ rest | some value ↦ value ]

pub data MachineIdError : Type 0 where
  read_sysinfo : IoError → MachineIdError
  incomplete : MachineIdError

unfoldable pub dashed : Text → Text → Text → Text → Text
dashed m t p s = m ++ (b'-' ∷ t ++ (b'-' ∷ p ++ (b'-' ∷ s)))

unfoldable pub machine_id_from_sysinfo : Text → Result MachineIdError Text
unfolding parse_sysinfo_field dashed
machine_id_from_sysinfo content =
    let manufacturer = parse_sysinfo_field (bytes "Manufacturer:") content in
    let machine_type = parse_sysinfo_field (bytes "Type:") content in
    let plant = parse_sysinfo_field (bytes "Plant:") content in
    let seq_code = parse_sysinfo_field (bytes "Sequence Code:") content in
    if manufacturer == [] || (machine_type == [] || (plant == [] || seq_code == []))
    then err incomplete
    else ok (to_lower (dashed manufacturer machine_type plant seq_code))

abbrev parsed : Result IoError Text → Result MachineIdError Text
parsed (err e) = err (read_sysinfo e)
parsed (ok content) = machine_id_from_sysinfo content

unfoldable pub machine_id : (os : Os) → FilePath → Exec os.World MachineIdError Text
unfolding machine_id_from_sysinfo
machine_id os path w = let (r, w') = os.read_file path w in (parsed r, w')
