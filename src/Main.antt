-- ===== src/Main.antt =====
-- cmd/cex-dra-kubeletplugin/main.go: the start of the plugin, from the parsed flags to the exit code.
-- Parameters stand for the environment, the host's name, the client library of Kubernetes, the
-- scheduler of the goroutines, and the wait for the end of the context.
pub mod Exit
pub mod Names
use k8s_cex_dra_driver.Prelude.{
  ℕ, ◌-◌, Text, List, [], ◌∷◌, ◌++◌, Bool, true, false, not, ◌&&◌, ◌||◌, Option, none, some, ◌==◌,
  text_eq, ltb, length, if◌then◌else◌,
}
use k8s_cex_dra_driver.Prelude.Int.{ℤ, is_positive}
use k8s_cex_dra_driver.Prelude.Exec.{Result, ok, err, Exec, pure, raise, wrap, map_err, ◌>>=◌, ◌>>◌}
use k8s_cex_dra_driver.Prelude.Strings.{bytes}
use k8s_cex_dra_driver.Os.{Os, FilePath, IoError}
use k8s_cex_dra_driver.Resource.{DriverResources}
use k8s_cex_dra_driver.Health.{stale_after, watch_period}
use k8s_cex_dra_driver.Health.Server
use k8s_cex_dra_driver.Health.Server.{Server}
use k8s_cex_dra_driver.Features
use k8s_cex_dra_driver.Features.{FeatureGate, container_workload, virtual_machine_workload}
use k8s_cex_dra_driver.Preflight.{Check, run}
use k8s_cex_dra_driver.Preflight.Checks.{registry}
use k8s_cex_dra_driver.Driver.{Driver}
use k8s_cex_dra_driver.Driver.Start
use k8s_cex_dra_driver.Driver.Start.{Config, NewError}

unfoldable pub driver_name : Text
driver_name = bytes "cex-driver.ibm.com"

pub record Flags : Type 0 where
  pub node_name : Text
  pub machine_id : Text
  pub sysinfo_path : FilePath
  pub kubeconfig : Text
  pub kubelet_plugins_directory_path : Text
  -- Nanoseconds
  pub scan_interval : ℤ
  pub healthcheck_port : ℤ
  pub cdi_root : Text
  pub feature_gates : Text

-- The 63 characters of a device name, less those behind the machine identifier
unfoldable pub max_machine_id_len : ℕ
unfolding bytes
max_machine_id_len = 63 - length (bytes "-xx-yyyy")

-- `filepath.Join` of a directory that is clean and not empty
unfoldable pub plugin_path : Text → Text
plugin_path kubelet_plugins_dir = kubelet_plugins_dir ++ (b'/' ∷ driver_name)

-- What is not in the repository.
pub record Libraries (os : Os) : Type 1 where
  pub gates : FeatureGate
  -- `validation.IsDNS1123Label` has no complaint.
  pub is_label : Text → Bool
  -- The value of CEX_DRA_SKIP_PREFLIGHT
  pub skip_preflight : Text
  pub HostError : Type 0
  pub hostname : Exec os.World HostError Text
  pub ClientConfig : Type 0
  pub Client : Type 0
  pub ClientError : Type 0
  pub in_cluster_config : Exec os.World ClientError ClientConfig
  pub build_config_from_flags : Text → Exec os.World ClientError ClientConfig
  pub new_for_config : ClientConfig → Exec os.World ClientError Client
  pub clock : os.World → ℕ
  pub ListenError : Type 0
  pub listen : Text → Exec os.World ListenError Text
  pub StartError : Type 0
  pub start : Client → Config → Exec os.World StartError (Unit {0})
  pub PublishError : Type 0
  pub publish : DriverResources → Exec os.World PublishError (Unit {0})
  pub sha256_hex : Text → Text
  -- klog at verbosity 4
  pub verbose : Bool
  -- The time up to the end of the context, in which the driver works. `none` is the cause of a signal,
  -- `context.Canceled`.
  pub Cause : Type 0
  pub until_done : Driver → os.World → Option Cause × os.World
  -- The goroutines that have been started come to run here, before the one that started them goes on.
  pub scheduled : os.World → Bool
  pub shutdown : os.World → os.World
  pub stop_health : os.World → os.World

pub data ActionError {os : Os} (lib : Libraries os) : Type 0 where
  parse_feature_gates : lib.gates.GateError → ActionError lib
  no_workload : ActionError lib
  machine_id_too_long : ActionError lib
  machine_id_not_label : ActionError lib
  preflight_failed : ℕ → ActionError lib
  no_hostname : lib.HostError → ActionError lib
  create_client : lib.ClientError → ActionError lib
  plugin_directory : IoError → ActionError lib
  health_service : lib.ListenError → ActionError lib
  driver_failed : NewError lib.StartError lib.PublishError → ActionError lib
  background : lib.Cause → ActionError lib
  -- The panic of a goroutine, which ends the process
  ticker_panic : ActionError lib

module _ {os : Os} (lib : Libraries os) where
  open os use {World}

  abbrev Action : Type 0 → Type 0
  Action A = Exec World (ActionError lib) A

  unfoldable pub validate_workload_gates : lib.gates.Gates → Result (ActionError lib) (Unit {0})
  validate_workload_gates g =
      if not (lib.gates.enabled g virtual_machine_workload)
        && not (lib.gates.enabled g container_workload)
      then err no_workload
      else ok tt

  unfoldable pub validate_machine_id : Text → Result (ActionError lib) (Unit {0})
  validate_machine_id machine_id =
      if machine_id == []
      then ok tt
      else if ltb max_machine_id_len (length machine_id)
      then err machine_id_too_long
      else if not (lib.is_label machine_id)
      then err machine_id_not_label
      else ok tt

  unfoldable pub new_kube_client : Text → Exec World lib.ClientError lib.Client
  new_kube_client kubeconfig = do
    config ←
        if kubeconfig == [] then lib.in_cluster_config else lib.build_config_from_flags kubeconfig
    lib.new_for_config config

  abbrev lift : {A : Type 0} → Result (ActionError lib) A → Action A
  lift r w = (r, w)

  -- The error of a run of the checks
  abbrev fatal : Option ℕ → Result (ActionError lib) (Unit {0})
  fatal none = ok tt
  fatal (some n) = err (preflight_failed n)

  unfoldable pub preflight : lib.gates.Gates → Action (Unit {0})
  preflight g w =
      let (r, w') = run (lib.gates.enabled g) lib.skip_preflight (registry os) w in (fatal r, w')

  -- `time.NewTicker` of a goroutine, which panics for a period that is not positive, where the goroutine
  -- comes to run.
  unfoldable pub new_ticker : ℤ → Action (Unit {0})
  new_ticker period w =
      (if not (is_positive period) && lib.scheduled w then err ticker_panic else ok tt, w)

  -- The ticker of `health.Watch`
  unfoldable pub watch_ticker : Flags → Action (Unit {0})
  unfolding new_ticker
  watch_ticker flags = new_ticker (watch_period (stale_after flags.scan_interval))

  -- The tickers of `health.Watch` and of `startScanLoop`
  unfoldable pub tickers : Flags → Action (Unit {0})
  unfolding watch_ticker new_ticker
  tickers flags = do watch_ticker flags; new_ticker flags.scan_interval

  unfoldable pub wait : Driver → Action (Option lib.Cause)
  wait d w = let (cause, w') = lib.until_done d w in (ok cause, w')

  unfoldable pub finish : Option lib.Cause → Action (Unit {0})
  finish cause w = (elim cause [ none ↦ ok tt | some c ↦ err (background c) ], lib.shutdown w)

  -- The end of `runPlugin`: a cause other than a signal's is the error.
  unfoldable pub serve : Flags → Driver → Action (Unit {0})
  unfolding tickers wait finish
  serve flags d = do tickers flags; cause ← wait d; tickers flags; finish cause

  -- A panic runs none of the functions that another goroutine has deferred.
  abbrev stopped : Result (ActionError lib) (Unit {0}) → World → World
  stopped (err ticker_panic) w = w
  stopped _ w = lib.stop_health w

  -- The service is stopped however the function returns; a nil one does nothing.
  abbrev deferred_stop : Option Server → Action (Unit {0}) → Action (Unit {0})
  deferred_stop none m w = m w
  deferred_stop (some s) m w = let (r, w') = m w in (r, stopped r w')

  unfoldable pub driver_config : Flags → Option ℕ → Config
  driver_config flags heartbeat = record {
    driver_name = driver_name;
    node_name = flags.node_name;
    machine_id = flags.machine_id;
    sysinfo_path = flags.sysinfo_path;
    heartbeat = heartbeat;
    plugin_data_dir = plugin_path flags.kubelet_plugins_directory_path;
    cdi_root = flags.cdi_root;
  }

  abbrev pub new_driver :
      Flags → lib.Client → Option ℕ → Exec World (NewError lib.StartError lib.PublishError) Driver
  new_driver flags client heartbeat =
      Start.new os lib.sha256_hex lib.verbose (lib.start client) lib.publish
        (driver_config flags heartbeat)

  -- `driver.New` returns beside the goroutine of the watchdog, whether it fails or not.
  abbrev attempt : {E A : Type 0} → Exec World E A → Action (Result E A)
  attempt m w = let (r, w') = m w in (ok r, w')

  unfoldable pub run_driver : Flags → lib.Client → Option ℕ → Action (Unit {0})
  unfolding driver_config watch_ticker serve
  run_driver flags client heartbeat = do
    built ← attempt (new_driver flags client heartbeat)
    watch_ticker flags
    d ← wrap driver_failed (λ w. (built, w))
    serve flags d

  abbrev pub make_directory : Flags → Exec World IoError (Unit {0})
  make_directory flags = os.mkdir_all (plugin_path flags.kubelet_plugins_directory_path ∷ [])

  abbrev pub start_health : Flags → Option ℕ → Exec World lib.ListenError (Option Server)
  start_health flags heartbeat =
      Server.start lib.listen flags.healthcheck_port heartbeat (stale_after flags.scan_interval)

  unfoldable pub run_plugin : Flags → lib.Client → Action (Unit {0})
  unfolding run_driver watch_ticker
  run_plugin flags client = do
    wrap plugin_directory (make_directory flags)
    heartbeat ← λ w. (ok (some (lib.clock w)), w)
    server ← wrap health_service (start_health flags heartbeat)
    deferred_stop server (watch_ticker flags >> run_driver flags client heartbeat)

  unfoldable pub node_name_of : Flags → Action Text
  node_name_of flags =
      if flags.node_name == [] then wrap no_hostname lib.hostname else pure flags.node_name

  -- The part of `Action` behind the checks
  unfoldable pub launch : Flags → Action (Unit {0})
  unfolding new_kube_client node_name_of run_plugin
  launch flags = do
    node_name ← node_name_of flags
    client ← wrap create_client (new_kube_client flags.kubeconfig)
    run_plugin (record flags { node_name = node_name }) client

  -- The part of `Action` behind the parse of the feature gates, which are fixed from then on.
  unfoldable pub act : Flags → lib.gates.Gates → Action (Unit {0})
  unfolding validate_workload_gates validate_machine_id preflight launch
  act flags g = do
    lift (validate_workload_gates g)
    lift (validate_machine_id flags.machine_id)
    preflight g
    launch flags

  unfoldable pub action : Flags → lib.gates.Gates → Action (Unit {0})
  unfolding act
  action flags g w =
      let (r, warnings, g') = Features.set lib.gates flags.feature_gates g in
      elim r [ err e ↦ (err (parse_feature_gates e), w) | ok _ ↦ act flags g' w ]

  -- The exit code of the process
  unfoldable pub exit_code : Result (ActionError lib) (Unit {0}) → ℕ
  exit_code (ok _) = 0
  exit_code (err (preflight_failed n)) = 2
  exit_code (err ticker_panic) = 2
  exit_code (err _) = 1
