-- ===== src/Resource.antt =====
-- The types of k8s.io/api/resource/v1 and of the kubelet's plugin interface, in the fields that the
-- driver reads and writes.
use k8s_cex_dra_driver.Prelude.{Text, List, Option}
use k8s_cex_dra_driver.Prelude.Dict.{Dict}
use k8s_cex_dra_driver.Prelude.Int.{ℤ}

-- Of the pointer fields of a `DeviceAttribute` at most one is set.
pub record DeviceAttribute : Type 0 where
  pub string_value : Option Text
  pub int_value : Option ℤ

abbrev pub Attributes : Type 0
Attributes = Dict Text DeviceAttribute

pub record Device : Type 0 where
  pub name : Text
  pub attributes : Attributes

-- An entry of `Status.Allocation.Devices.Results`
pub record AllocationResult : Type 0 where
  pub request : Text
  pub driver : Text
  pub pool : Text
  pub device : Text

-- A request of the claim's spec; `exactly` is the DeviceClassName of its `Exactly` clause.
pub record DeviceRequest : Type 0 where
  pub name : Text
  pub exactly : Option Text

pub record OpaqueConfig : Type 0 where
  pub driver : Text
  pub raw : Text

-- An entry of `Status.Allocation.Devices.Config`, which may hold no opaque configuration.
abbrev pub AllocationConfig : Type 0
AllocationConfig = Option OpaqueConfig

pub record Allocation : Type 0 where
  pub results : List AllocationResult
  pub config : List AllocationConfig

pub record ResourceClaim : Type 0 where
  pub uid : Text
  pub name : Text
  pub namespace : Text
  pub annotations : Dict Text Text
  pub requests : List DeviceRequest
  pub allocation : Option Allocation

-- `drapbv1.Device`
pub record PreparedDevice : Type 0 where
  pub request_names : List Text
  pub pool_name : Text
  pub device_name : Text
  pub cdi_device_ids : List Text

-- A pool is a list of slices, and a slice a list of devices.
abbrev pub Pool : Type 0
Pool = List (List Device)

abbrev pub DriverResources : Type 0
DriverResources = Dict Text Pool
