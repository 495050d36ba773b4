-- ===== src/DeviceState.antt =====
-- internal/devicestate/state.go: the devices that the node offers, and the claims that it prepares.
-- The state lock makes the methods take turns, so each is a function on the state that it finds.
pub mod Hash
pub mod Env
pub mod Quiet
pub mod Guests
pub mod Allocation
pub mod Matrix
pub mod Build
pub mod Ensure
pub mod Rollback
pub mod Prepare
pub mod Unprepare
pub mod Snapshot
pub mod Published
use k8s_cex_dra_driver.Prelude.{
  ℕ, Text, List, [], ◌∷◌, ◌++◌, Bool, true, false, ◌==◌, text_eq, map, if◌then◌else◌,
}
use k8s_cex_dra_driver.Prelude.Dict.{Dict, put}
use k8s_cex_dra_driver.Prelude.Int.{ℤ, pos, increment}
use k8s_cex_dra_driver.Resource.{Device, DriverResources}
use k8s_cex_dra_driver.DeviceState.Hash.{compute_devices_hash}

pub record DeviceState : Type 0 where
  pub driver_resources : DriverResources
  pub allocatable : Dict Text Device
  pub update_count : ℤ
  pub node_name : Text
  pub previous_hash : Text
  pub driver_name : Text
  pub cdi_root : Text
  pub plugin_data_dir : Text

unfoldable pub new : Text → Text → Text → Text → DeviceState
new node_name driver_name cdi_root plugin_data_dir = record {
  driver_resources = [];
  allocatable = [];
  update_count = pos 0;
  node_name = node_name;
  previous_hash = [];
  driver_name = driver_name;
  cdi_root = cdi_root;
  plugin_data_dir = plugin_data_dir;
}

unfoldable pub put_devices : List Device → Dict Text Device → Dict Text Device
put_devices [] allocatable = allocatable
put_devices (d ∷ devices) allocatable = put_devices devices (put d.name d allocatable)

unfoldable pub allocatable_of : Dict Text (List Device) → Dict Text Device → Dict Text Device
unfolding put_devices
allocatable_of [] allocatable = allocatable
allocatable_of ((_, devices) ∷ cards) allocatable =
    allocatable_of cards (put_devices devices allocatable)

abbrev pub pool_name : Text → Text → Text
pool_name node_name card_id = node_name ++ (b'-' ∷ card_id)

unfoldable pub pools_of : Text → Dict Text (List Device) → DriverResources → DriverResources
pools_of node_name [] pools = pools
pools_of node_name ((card_id, devices) ∷ cards) pools =
    pools_of node_name cards (put (pool_name node_name card_id) (devices ∷ []) pools)

module _ (sha256_hex : Text → Text) where
  unfoldable pub compare_and_update : Dict Text (List Device) → DeviceState → Bool × DeviceState
  unfolding allocatable_of pools_of
  compare_and_update devices_by_card s =
      let new_hash = compute_devices_hash sha256_hex devices_by_card in
      if new_hash == s.previous_hash then (false, s) else (
        true,
        record s {
          driver_resources = pools_of s.node_name devices_by_card [];
          allocatable = allocatable_of devices_by_card [];
          update_count = increment s.update_count;
          previous_hash = new_hash;
        },
      )
