-- ===== src/Sample/Claim.antt =====
-- Claims for two queues of one card, and the state of a driver that scanned them.
use k8s_cex_dra_driver.Prelude.Dict.{get}
use k8s_cex_dra_driver.Prelude.{
  Bool-cases, inl, inr, subst, ==→eq, arith, ◌≡◌, refl, Bool, ◌||◌, text_beq, Text, List, [], ◌∷◌,
  ◌++◌, true, false, Option, none, some, ◌==◌, text_eq, if◌then◌else◌,
}
use k8s_cex_dra_driver.Prelude.Strings.{bytes, all}
use k8s_cex_dra_driver.Prelude.Int.{pos}
use k8s_cex_dra_driver.Cdi.{cdi_kind}
use k8s_cex_dra_driver.Mdev.{Apqn, apqn_eq}
use k8s_cex_dra_driver.DeviceState.Matrix.{allocates, queue_named}
use k8s_cex_dra_driver.Resource.{
  Device, AllocationConfig, AllocationResult, Allocation, ResourceClaim, PreparedDevice,
}
use k8s_cex_dra_driver.CryptoConfig.{Decoded, kind_value, api_version_value, all_control_domains}
use k8s_cex_dra_driver.DeviceState.{DeviceState}
use k8s_cex_dra_driver.DeviceState.Env.{Env}
use k8s_cex_dra_driver.DeviceState.Allocation.{
  Collected, device_class_vm, apid_name, apqi_name, queue_of_device,
}
use k8s_cex_dra_driver.Os.{Os}
use k8s_cex_dra_driver.ApScanner.Tracker.{new_mkvp_tracker}
use k8s_cex_dra_driver.Driver.{Driver}
use k8s_cex_dra_driver.DeviceState.Guests.{IsNumber}
use k8s_cex_dra_driver.Mdev.Matrix.{is_hex_digit}
use k8s_cex_dra_driver.Sample.Node.{node_os}

abbrev pub first : Apqn
first = record { apid = bytes "02"; apqi = bytes "0008" }

abbrev pub second : Apqn
second = record { apid = bytes "02"; apqi = bytes "0009" }

abbrev pub decode : Text → Option Decoded
decode raw =
    if raw == bytes "all"
    then some (record {
      config = record {
        kind = kind_value;
        api_version = api_version_value;
        control_domain_mode = all_control_domains;
      };
      more = false;
    })
    else none

-- A driver with both gates, whose codecs never fail.
abbrev pub plain_env : (os : Os) → Env os
plain_env os = record {
  ended = λ n. false;
  gave_up = λ n. false;
  range_texts = λ n texts. texts;
  range_apqns = λ n queues. queues;
  verbose = false;
  container_workload = true;
  virtual_machine_workload = true;
  decode = decode;
  marshal_metadata = λ meta. some (bytes "metadata");
  unmarshal_metadata = λ text. none;
  marshal_spec = λ spec. some (bytes "spec");
}

abbrev pub env : Env node_os
env = plain_env node_os

abbrev pub gated_env : Env node_os
gated_env = record env { virtual_machine_workload = false }

abbrev pub device_of : Text → Apqn → Device
device_of name q = record {
  name = name;
  attributes =
      (apid_name, record { string_value = some q.apid; int_value = none })
      ∷ (apqi_name, record { string_value = some q.apqi; int_value = none })
      ∷ [];
}

abbrev pub state : DeviceState
state = record {
  driver_resources = [];
  allocatable =
      (bytes "m-02-0008", device_of (bytes "m-02-0008") first)
      ∷ (bytes "m-02-0009", device_of (bytes "m-02-0009") second)
      ∷ [];
  update_count = pos 1;
  node_name = bytes "node";
  previous_hash = bytes "hash";
  driver_name = bytes "cex.ibm.com";
  cdi_root = bytes "/var/run/cdi";
  plugin_data_dir = bytes "/var/lib/kubelet/plugins/cex.ibm.com";
}

abbrev pub result_of : Text → Text → AllocationResult
result_of request device = record {
  request = request;
  driver = bytes "cex.ibm.com";
  pool = bytes "node-card02";
  device = device;
}

-- The second result answers the other request if there is one.
abbrev pub results : Text → List AllocationResult
results other =
    result_of (bytes "a") (bytes "m-02-0008")
    ∷ result_of other (bytes "m-02-0009")
    ∷ record {
      request = bytes "gpu";
      driver = bytes "gpu.example.com";
      pool = bytes "p";
      device = bytes "d";
    }
    ∷ []

abbrev pub allocation : Text → List AllocationConfig → Allocation
allocation other config = record { results = results other; config = config }

-- Request "a" is of the first class, and request "b" of the second.
abbrev pub claim_of : Text → Text → Text → List AllocationConfig → ResourceClaim
claim_of a b other config = record {
  uid = bytes "6a1e";
  name = bytes "claim";
  namespace = bytes "default";
  annotations = [];
  requests =
      record { name = bytes "a"; exactly = some a }
      ∷ record { name = bytes "b"; exactly = some b }
      ∷ [];
  allocation = some (allocation other config);
}

abbrev pub collected : Collected
collected = record {
  adapters = bytes "02" ∷ [];
  domains = bytes "0008" ∷ bytes "0009" ∷ [];
  allocated = first ∷ second ∷ [];
}

-- A VM claim for both queues
abbrev pub vm_claim : ResourceClaim
vm_claim = claim_of device_class_vm device_class_vm (bytes "a") []

-- What `Prepare` answers for it
abbrev prepared_device : Text → PreparedDevice
prepared_device name = record {
  request_names = bytes "a" ∷ [];
  pool_name = bytes "node-card02";
  device_name = name;
  cdi_device_ids = (cdi_kind ++ bytes "=6a1e") ∷ [];
}

abbrev pub prepared_devices : List PreparedDevice
prepared_devices = prepared_device (bytes "m-02-0008") ∷ prepared_device (bytes "m-02-0009") ∷ []

-- The queues that its results name
pub named :
    (q : Apqn)
    → allocates state.driver_name state.allocatable (results (bytes "a")) q
      ≡ (first == q || (second == q || false))
unfolding k8s_cex_dra_driver.DeviceState.Matrix.allocates k8s_cex_dra_driver.Prelude.text_beq
    k8s_cex_dra_driver.Prelude.Strings.bytes queue_named get queue_of_device
    k8s_cex_dra_driver.DeviceState.Allocation.apid_name
    k8s_cex_dra_driver.DeviceState.Allocation.apqi_name
named q = refl

-- The same queues as a scan finds them once they are bound to vfio_ap
abbrev pub rebound_device : Text → Apqn → Device
rebound_device name q = record {
  name = name;
  attributes =
      (bytes "driver", record { string_value = some (bytes "vfio_ap"); int_value = none })
      ∷ (device_of name q).attributes;
}

abbrev pub rescanned_state : DeviceState
rescanned_state = record state {
  allocatable =
      (bytes "m-02-0008", rebound_device (bytes "m-02-0008") first)
      ∷ (bytes "m-02-0009", rebound_device (bytes "m-02-0009") second)
      ∷ [];
  previous_hash = bytes "another";
}

pub named_again :
    (q : Apqn)
    → allocates rescanned_state.driver_name rescanned_state.allocatable (results (bytes "a")) q
      ≡ (first == q || (second == q || false))
unfolding k8s_cex_dra_driver.DeviceState.Matrix.allocates k8s_cex_dra_driver.Prelude.text_beq
    k8s_cex_dra_driver.Prelude.Strings.bytes queue_named get queue_of_device
    k8s_cex_dra_driver.DeviceState.Allocation.apid_name
    k8s_cex_dra_driver.DeviceState.Allocation.apqi_name
named_again q = refl

first-IsNumber : IsNumber 2 first.apid × IsNumber 4 first.apqi
unfolding bytes all is_hex_digit
first-IsNumber = ((refl, refl), (refl, refl))

second-IsNumber : IsNumber 2 second.apid × IsNumber 4 second.apqi
unfolding bytes all is_hex_digit
second-IsNumber = ((refl, refl), (refl, refl))

pub numbers :
    (q : Apqn)
    → allocates state.driver_name state.allocatable (results (bytes "a")) q ≡ true
    → IsNumber 2 q.apid × IsNumber 4 q.apqi
numbers q m = elim (Bool-cases (first == q)) [
  | inl same ↦
      subst (λ (p : Apqn). IsNumber 2 p.apid × IsNumber 4 p.apqi) (==→eq same) first-IsNumber
  | inr apart ↦
      subst (λ (p : Apqn). IsNumber 2 p.apid × IsNumber 4 p.apqi)
        (==→eq {a = second} {b = q} (ground (arith, named q))) second-IsNumber
]

-- The driver around the state
abbrev pub driver : Driver
driver = record {
  state = state;
  mkvp_tracker = new_mkvp_tracker;
  scan_pending = false;
  heartbeat = none;
  machine_id = bytes "m";
}

abbrev pub digest : Text → Text
digest text = bytes "e3"
