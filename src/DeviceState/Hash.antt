-- ===== src/DeviceState/Hash.antt =====
-- `computeDevicesHash` of internal/devicestate/state.go. SHA-256 with its hexadecimal form is the
-- parameter `sha256_hex`.
pub mod Order
use k8s_cex_dra_driver.Prelude.{
  Text, List, [], ◌∷◌, ◌++◌, Bool, true, false, Option, none, some, ltb, nat_beq, map, text_eq,
  if◌then◌else◌,
}
use k8s_cex_dra_driver.Prelude.Dict.{Dict, or_default}
use k8s_cex_dra_driver.Prelude.Sort.{sort_by}
use k8s_cex_dra_driver.Prelude.Int.{ℤ, format_int}
use k8s_cex_dra_driver.Resource.{Device, DeviceAttribute}

abbrev int_text : Option ℤ → Text
int_text none = []
int_text (some i) = format_int i

unfoldable pub attribute_bytes : Text → DeviceAttribute → Text
attribute_bytes key a = key ++ (or_default [] a.string_value ++ int_text a.int_value)

abbrev concat_texts : List Text → Text
concat_texts [] = []
concat_texts (s ∷ texts) = s ++ concat_texts texts

unfoldable pub device_bytes : Device → Text
unfolding sort_by attribute_bytes
device_bytes d =
    d.name
    ++ concat_texts (map (λ (k, a). attribute_bytes k a) (sort_by (λ (k, _). k) d.attributes))

-- What is written into the hash.
unfoldable pub hash_input : Dict Text (List Device) → Text
unfolding device_bytes
hash_input devices_by_card = concat_texts (
    map (λ (card, devices). card ++ concat_texts (map device_bytes (sort_by (λ d. d.name) devices)))
      (sort_by (λ (card, _). card) devices_by_card))

unfoldable pub compute_devices_hash : (Text → Text) → Dict Text (List Device) → Text
unfolding hash_input
compute_devices_hash sha256_hex devices_by_card = sha256_hex (hash_input devices_by_card)
