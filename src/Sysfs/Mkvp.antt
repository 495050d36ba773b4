-- ===== src/Sysfs/Mkvp.antt =====
-- internal/sysfs/mkvp.go: the master key verification patterns of a queue.
pub mod Names
pub mod Lines
pub mod Printed
use k8s_cex_dra_driver.Prelude.{
  ℕ, zero, suc, String, Text, List, [], ◌∷◌, ◌++◌, Bool, true, false, Option, none, some, ◌==◌,
  text_eq, length, ltb, map, take, if◌then◌else◌,
}
use k8s_cex_dra_driver.Prelude.Exec.{Result, ok, err, Exec, wrap, map_err, ◌>>=◌}
use k8s_cex_dra_driver.Prelude.Dict.{Dict, get, put, or_default}
use k8s_cex_dra_driver.Prelude.Strings.{
  bytes, is_space, trim_left, trim_space, cut, split, has_prefix, trim_prefix,
}
use k8s_cex_dra_driver.Os.{Os, FilePath, IoError}

unfoldable pub cca : Text
cca = bytes "cca"

unfoldable pub ep11 : Text
ep11 = bytes "ep11"

-- Attribute name to value.
abbrev pub Mkvps : Type 0
Mkvps = Dict Text Text

abbrev entry : String → String → Text × Text
entry key attr = (bytes key, bytes attr)

unfoldable pub cca_mkvp_key_map : Dict Text Text
cca_mkvp_key_map =
    entry "AES CUR" "cex.cca.domain.ibm.com/mkvp_aes_cur"
    ∷ entry "AES OLD" "cex.cca.domain.ibm.com/mkvp_aes_old"
    ∷ entry "AES NEW" "cex.cca.domain.ibm.com/mkvp_aes_new"
    ∷ entry "APKA CUR" "cex.cca.domain.ibm.com/mkvp_apka_cur"
    ∷ entry "APKA OLD" "cex.cca.domain.ibm.com/mkvp_apka_old"
    ∷ entry "APKA NEW" "cex.cca.domain.ibm.com/mkvp_apka_new"
    ∷ entry "ASYM CUR" "cex.cca.domain.ibm.com/mkvp_asym_cur"
    ∷ entry "ASYM OLD" "cex.cca.domain.ibm.com/mkvp_asym_old"
    ∷ entry "ASYM NEW" "cex.cca.domain.ibm.com/mkvp_asym_new"
    ∷ []

unfoldable pub ep11_mkvp_key_map : Dict Text Text
ep11_mkvp_key_map =
    entry "WK CUR" "cex.ep11.domain.ibm.com/mkvp_wk_cur"
    ∷ entry "WK NEW" "cex.ep11.domain.ibm.com/mkvp_wk_new"
    ∷ []

abbrev pub ep11_wkvp_hex_len : ℕ
ep11_wkvp_hex_len = 32

unfoldable pub mkvp_unknown_value : Text
mkvp_unknown_value = bytes "unknown"

-- A read that failed, or the key whose value is the kernel's placeholder.
pub data MkvpError : Type 0 where
  mkvp_io : IoError → MkvpError
  placeholder_state : Text → MkvpError

unfoldable pub until_space : Text → Text
until_space [] = []
until_space (c ∷ s) = let rest = until_space s in if is_space c then [] else c ∷ rest

-- `fields := strings.Fields(value); len(fields) > 0 && fields[0] == "-"`
unfoldable pub is_placeholder_state : Text → Bool
unfolding until_space
is_placeholder_state value = until_space (trim_left value) == bytes "-"

-- `s[idx+2:]` at the first "0x" of `s`, or "" where there is none.
unfoldable pub extract_hex_value : Text → Text
extract_hex_value [] = []
extract_hex_value (c ∷ s) =
    let rest = extract_hex_value s in
    if has_prefix (c ∷ s) (bytes "0x") then trim_prefix (c ∷ s) (bytes "0x") else rest

-- `if len(value) > ep11WKVPHexLen { value = value[:ep11WKVPHexLen] }`
unfoldable pub truncate_wkvp : Text → Text
unfolding take
truncate_wkvp value =
    if ltb ep11_wkvp_hex_len (length value) then take ep11_wkvp_hex_len value else value

-- One case of the switch over the card type: the key map, and what is stored for a value.
unfoldable pub store_value :
    Dict Text Text → (Text → Text) → Text → Text → Mkvps → Result MkvpError Mkvps
store_value keys value_of key raw mkvps =
    let attr_name = or_default [] (get key keys) in
    if attr_name == []
    then ok mkvps
    else if is_placeholder_state raw
    then err (placeholder_state key)
    else ok (put attr_name (value_of raw) mkvps)

unfoldable pub parse_entry : Text → Text → Text → Mkvps → Result MkvpError Mkvps
unfolding store_value extract_hex_value truncate_wkvp
parse_entry card_type key raw mkvps =
    if card_type == cca
    then store_value cca_mkvp_key_map extract_hex_value key raw mkvps
    else if card_type == ep11
    then store_value ep11_mkvp_key_map (λ v. truncate_wkvp (extract_hex_value v)) key raw mkvps
    else ok mkvps

unfoldable pub parse_line : Text → Text → Mkvps → Result MkvpError Mkvps
unfolding parse_entry
parse_line card_type raw_line mkvps =
    let line = trim_space raw_line in
    if line == [] then ok mkvps else elim (cut b':' line) [
      | none ↦ ok mkvps
      | some (key, raw) ↦ parse_entry card_type (trim_space key) (trim_space raw) mkvps
    ]

unfoldable pub parse_mkvp_lines : Text → List Text → Mkvps → Result MkvpError Mkvps
unfolding parse_line
parse_mkvp_lines card_type [] mkvps = ok mkvps
parse_mkvp_lines card_type (line ∷ lines) mkvps = elim (parse_line card_type line mkvps) [
  | err e ↦ err e
  | ok mkvps' ↦ parse_mkvp_lines card_type lines mkvps'
]

unfoldable pub mkvps_path : FilePath → FilePath
mkvps_path queue_path = queue_path ++ (bytes "mkvps" ∷ [])

module _ (os : Os) where
  unfoldable pub parse_mkvps : FilePath → Text → Exec os.World MkvpError Mkvps
  parse_mkvps queue_path card_type = do
    content ← wrap mkvp_io (os.read_file (mkvps_path queue_path))
    λ w. (parse_mkvp_lines card_type (split b'\n' content) [], w)

unfoldable pub unknown_mkvps : Text → Mkvps
unknown_mkvps card_type =
    let all_unknown : Dict Text Text → Mkvps = map (λ (_, attr). (attr, mkvp_unknown_value)) in
    if card_type == cca
    then all_unknown cca_mkvp_key_map
    else if card_type == ep11
    then all_unknown ep11_mkvp_key_map
    else []
