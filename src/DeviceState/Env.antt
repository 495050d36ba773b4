-- ===== src/DeviceState/Env.antt =====
-- What a claim handler depends on beside the device state: its context, the order of map ranges, the
-- feature gates, and the JSON codecs. The world stands for time, so that a context may end and two
-- ranges over one map may differ.
use k8s_cex_dra_driver.Prelude.{Text, List, Bool, Option}
use k8s_cex_dra_driver.Os.{Os}
use k8s_cex_dra_driver.Mdev.{Apqn}
use k8s_cex_dra_driver.CryptoConfig.{Decoded}
use k8s_cex_dra_driver.Metadata.{DeviceMetadata}
use k8s_cex_dra_driver.Cdi.{Spec}

pub record Env (os : Os) : Type 0 where
  -- `ctx.Err() != nil`
  pub ended : os.World → Bool
  -- The `select` of `lockCtx` takes the branch of the context.
  pub gave_up : os.World → Bool
  pub range_texts : os.World → List Text → List Text
  pub range_apqns : os.World → List Apqn → List Apqn
  -- klog at verbosity 4
  pub verbose : Bool
  -- The feature gates ContainerWorkload and VirtualMachineWorkload
  pub container_workload : Bool
  pub virtual_machine_workload : Bool
  pub decode : Text → Option Decoded
  pub marshal_metadata : DeviceMetadata → Option Text
  pub unmarshal_metadata : Text → Option DeviceMetadata
  pub marshal_spec : Spec → Option Text
