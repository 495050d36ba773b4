-- ===== src/DeviceState/Snapshot.antt =====
-- The snapshot of a scan, and when a scan makes a new one.
use k8s_cex_dra_driver.Prelude.{
  Text, List, [], ◌∷◌, Bool, true, false, ◌||◌, Option, none, some, ◌≡◌, refl, ◌==◌, text_eq,
  text_beq_iff, arith,
}
use k8s_cex_dra_driver.Prelude.Dict.{Dict, get, put, get-put}
use k8s_cex_dra_driver.Resource.{Device}
use k8s_cex_dra_driver.DeviceState.Hash.{compute_devices_hash}
use k8s_cex_dra_driver.DeviceState.{DeviceState, put_devices, allocatable_of, compare_and_update}

-- Some device of the list, or of the scan, has the name.
unfoldable pub has_device : List Device → Text → Bool
has_device [] name = false
has_device (d ∷ devices) name = d.name == name || has_device devices name

unfoldable pub scanned : Dict Text (List Device) → Text → Bool
scanned [] name = false
scanned ((_, devices) ∷ cards) name = has_device devices name || scanned cards name

abbrev pub is_there : Option Device → Bool
is_there none = false
is_there (some d) = true

get-put_devices :
    (devices : List Device) (allocatable : Dict Text Device) (name : Text)
    → is_there (get name (put_devices devices allocatable))
      ≡ (has_device devices name || is_there (get name allocatable))
unfolding put_devices has_device
get-put_devices [] allocatable name = refl
get-put_devices (d ∷ devices) allocatable name = ground (
  arith,
  get-put_devices devices (put d.name d allocatable) name,
  get-put d.name name d allocatable,
)

get-allocatable_of :
    (cards : Dict Text (List Device)) (allocatable : Dict Text Device) (name : Text)
    → is_there (get name (allocatable_of cards allocatable))
      ≡ (scanned cards name || is_there (get name allocatable))
unfolding allocatable_of scanned
get-allocatable_of [] allocatable name = refl
get-allocatable_of ((_, devices) ∷ cards) allocatable name = ground (
  arith,
  get-allocatable_of cards (put_devices devices allocatable) name,
  get-put_devices devices allocatable name,
)

module _ (sha256_hex : Text → Text) (cards : Dict Text (List Device)) (s : DeviceState) where
  -- Reporting the same scan twice updates the state at most once: the second report changes nothing
  -- and says so.
  pub compare_and_update_twice :
      let s' = (compare_and_update sha256_hex cards s).1 in
      compare_and_update sha256_hex cards s' ≡ (false, s')
  unfolding compare_and_update
  compare_and_update_twice =
      let hash = compute_devices_hash sha256_hex cards in ground (arith, text_beq_iff hash hash)

  -- After an update the allocatable devices are those of the scan and no others: none of an earlier
  -- scan stays.
  pub compare_and_update-scanned :
      (name : Text)
      → (compare_and_update sha256_hex cards s).0 ≡ true
      → is_there (get name (compare_and_update sha256_hex cards s).1.allocatable)
        ≡ scanned cards name
  unfolding compare_and_update get
  compare_and_update-scanned name changed = ground (arith, get-allocatable_of cards [] name)
