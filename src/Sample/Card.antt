-- ===== src/Sample/Card.antt =====
-- A node with one card of one queue, whose files are the same at all times; the world is the time.
use k8s_cex_dra_driver.Prelude.{
  ℕ, Text, List, [], ◌∷◌, true, false, none, some, ◌==◌, text_eq, refl, arith, if◌then◌else◌,
}
use k8s_cex_dra_driver.Prelude.Exec.{Result, ok, err, Exec}
use k8s_cex_dra_driver.Prelude.Int.{pos, negsuc}
use k8s_cex_dra_driver.Prelude.Strings.{bytes, all}
use k8s_cex_dra_driver.Os.{Os, FilePath, DirEntry, IoError, not_exist}
use k8s_cex_dra_driver.Sysfs.SysInfo.{is_re_space}
use k8s_cex_dra_driver.Sysfs.SysInfo.Printed.{Field, SysInfo, IsSysInfo, print_sysinfo}
use k8s_cex_dra_driver.ApScanner.Tracker.{zcrypt_driver}
use k8s_cex_dra_driver.Preflight.Checks.Masks.{printed}
use k8s_cex_dra_driver.Features.{FeatureGate, ga, default_feature_gates, virtual_machine_workload}
use k8s_cex_dra_driver.Main.{Flags, Libraries}
use k8s_cex_dra_driver.DeviceState.Env.{Env}

abbrev padded : Text → Text → Field
padded value trail = record { value = value; trail = trail }

abbrev pub machine : SysInfo
machine = record {
  manufacturer = padded (bytes "IBM") (bytes "  ");
  machine_type = padded (bytes "3931") [];
  lic = bytes "1234567890abcdef";
  model = bytes "704              A01";
  sequence_code = padded (bytes "00000000000A8F67") [];
  plant = padded (bytes "02") (bytes "  ");
  rest = bytes "Model Capacity:       704\n";
}

pub machine-IsSysInfo : IsSysInfo machine
unfolding all bytes is_re_space
machine-IsSysInfo = (
  (λ e. ground arith, refl, refl),
  (λ e. ground arith, refl, refl),
  refl,
  refl,
  (λ e. ground arith, refl, refl),
  (λ e. ground arith, refl, refl),
)

abbrev pub all_ones : Text
all_ones = bytes "ffffffffffffffff"

abbrev content : Text → Text
content name =
    if name == bytes "type"
    then bytes "CEX8A\n"
    else if name == bytes "chkstop"
    then bytes "0\n"
    else bytes "1\n"

abbrev read : FilePath → ℕ → Result IoError Text × ℕ
read (p ∷ []) n =
    (if p == bytes "/proc/sysinfo" then ok (print_sysinfo machine) else ok (printed all_ones), n)
read (_ ∷ _ ∷ name ∷ []) n = (ok (content name), n)
read (_ ∷ _ ∷ _ ∷ name ∷ []) n = (ok (bytes "1\n"), n)
read _ n = (err not_exist, n)

abbrev listing : FilePath → ℕ → Result IoError (List DirEntry) × ℕ
listing (p ∷ []) n = (
  if p == bytes "/sys/devices/ap"
      then ok (record { name = bytes "card02"; is_dir = true } ∷ [])
      else err not_exist,
  n,
)
listing _ n = (ok (record { name = bytes "02.0008"; is_dir = true } ∷ []), n)

abbrev pub card_os : Os
card_os = record {
  World = ℕ;
  read_file = read;
  write_file = λ p text n. (ok tt, n);
  stat = λ p n. (ok tt, n);
  read_dir = listing;
  read_link = λ p n. (ok (zcrypt_driver ∷ []), n);
  remove = λ p n. (ok tt, n);
  remove_all = λ p n. (ok tt, n);
  mkdir_all = λ p n. (ok tt, n);
  glob = λ p n. (ok [], n);
}

-- The gates of the driver and one that is locked; a setting of an unknown gate is refused.
abbrev pub gates : FeatureGate
gates = record {
  Gates = Unit {0};
  GateError = Unit {0};
  set = λ text g. (if text == bytes "Unknown=true" then err tt else ok tt, g);
  get_all = λ g.
      (bytes "Grown", record { default = true; lock_to_default = true; pre_release = ga })
      ∷ default_feature_gates;
  enabled = λ g name. name == virtual_machine_workload;
  known_features = λ g. [];
}

abbrev succeed : {A : Type 0} → A → Exec ℕ (Unit {0}) A
succeed a n = (ok a, n)

abbrev pub libraries : Libraries card_os
libraries = record {
  gates = gates;
  is_label = λ id. true;
  skip_preflight = [];
  HostError = Unit {0};
  hostname = succeed (bytes "node");
  ClientConfig = Unit {0};
  Client = Unit {0};
  ClientError = Unit {0};
  in_cluster_config = succeed tt;
  build_config_from_flags = λ path. succeed tt;
  new_for_config = λ config. succeed tt;
  clock = λ n. n;
  ListenError = Unit {0};
  listen = λ port. succeed port;
  StartError = Unit {0};
  start = λ client cfg. succeed tt;
  PublishError = Unit {0};
  publish = λ resources. succeed tt;
  sha256_hex = λ text. bytes "9f";
  verbose = false;
  Cause = Unit {0};
  until_done = λ d n. (none, n);
  scheduled = λ n. true;
  shutdown = λ n. n;
  stop_health = λ n. n;
}

abbrev pub flags : Flags
flags = record {
  node_name = [];
  machine_id = bytes "m";
  sysinfo_path = bytes "/proc/sysinfo" ∷ [];
  kubeconfig = [];
  kubelet_plugins_directory_path = bytes "/var/lib/kubelet/plugins";
  scan_interval = pos 30000000000;
  healthcheck_port = negsuc 0;
  cdi_root = bytes "/var/run/cdi";
  feature_gates = [];
}

abbrev pub card_env : Env card_os
card_env = record {
  ended = λ n. false;
  gave_up = λ n. false;
  range_texts = λ n texts. texts;
  range_apqns = λ n queues. queues;
  verbose = false;
  container_workload = true;
  virtual_machine_workload = true;
  decode = λ raw. none;
  marshal_metadata = λ meta. some (bytes "metadata");
  unmarshal_metadata = λ text. none;
  marshal_spec = λ spec. some (bytes "spec");
}
