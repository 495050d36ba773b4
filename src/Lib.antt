-- ===== src/Lib.antt =====
-- The kubelet plugin of the CEX DRA driver: it scans the AP bus of an IBM Z node, publishes each
-- crypto queue as a device, and prepares claims for them by handing queues to vfio-ap and building
-- mediated devices. The plugin's parts, and the files that model them, are these.
--
-- Mdev.antt models internal/mdev/mdev.go: Exists, ReadMatrix, Create, Destroy and the three
-- assignments are exists, read_matrix, create, destroy, assign_adapter, assign_domain and
-- assign_control_domain. Mdev/Matrix.antt is about the format of the matrix file.
--
-- Binding.antt models internal/binding/binding.go: SwitchToVFIOAP and SwitchToZcrypt are
-- switch_to_vfio_ap and switch_to_zcrypt. Binding/Kernel.antt states what the AP bus documents of
-- driver_override, unbind and drivers_probe, as the laws of a record that the theorems take;
-- Sample/Node.antt is an instance. Binding/Switch.antt is about the switches, and
-- Binding/Mdevs.antt about the calls on mediated devices beside them. Binding/Recovery.antt models
-- internal/binding/recovery.go: DrainOrphanedVFIOAP and liveAPQNs are drain_orphaned_vfio_ap and
-- live_apqns.
--
-- CryptoConfig.antt models internal/cryptoconfig/cryptoconfig.go (Parse, Resolve and merge), and
-- CryptoConfig/ControlDomain.antt internal/cryptoconfig/controldomain.go. CryptoConfig/Layers.antt
-- is about the order of the configurations of a claim.
--
-- Sysfs/Mkvp.antt models internal/sysfs/mkvp.go: the master key verification patterns of a queue.
-- ApScanner.antt, ApScanner/Queue.antt and ApScanner/Tracker.antt model
-- internal/apscanner/scanner.go: Scan and scanCard, one queue and its device, and the state that
-- Evaluate keeps of each queue from one scan to the next. The tracker comes in and goes out of
-- every function of the scan. Sysfs/Mkvp/Names.antt, Sysfs/Mkvp/Lines.antt,
-- Sysfs/Mkvp/Printed.antt, ApScanner/Tracker/Keys.antt, ApScanner/Tracker/History.antt and
-- ApScanner/CardType.antt are about them.
--
-- Metadata.antt and Cdi.antt model internal/metadata/metadata.go and internal/cdi/cdi.go: the
-- files that are written for a prepared claim, their deletion and their collection.
-- Cdi/Collect.antt is about them.
--
-- DeviceState.antt and the files below it model internal/devicestate/state.go. The record
-- DeviceState has the fields of the struct. CompareAndUpdate is compare_and_update, with the hash
-- of a scan in DeviceState/Hash.antt; DeviceState/Allocation.antt reads a claim's allocation;
-- DeviceState/Build.antt is ensureMdevForClaim, with the switching of the queues and its roll
-- back; DeviceState/Prepare.antt and DeviceState/Unprepare.antt are Prepare and Unprepare.
-- DeviceState/Guests.antt states what the vfio_ap module documents of its mediated devices, as the
-- laws of a record, with Sample/Host.antt as an instance, and DeviceState/Quiet.antt what it is
-- for a part of the node to be left alone by the plugin's files. DeviceState/Guests,
-- DeviceState/Ensure, DeviceState/Prepare and DeviceState/Unprepare hold what follows for each
-- step; DeviceState/Unprepare/Matrix.antt is about Unprepare and the matrix that the module keeps.
-- The other files there are about these, and DeviceState/Published.antt and the files below it tie
-- the devices of a scan to what is published and to what Prepare reads of them;
-- DeviceState/Hash/Order.antt is about the hash.
--
-- Driver.antt models the scan cycle and the claim handlers of internal/driver/driver.go:
-- runScanCycle, scanAndPublish, PrepareResourceClaims, prepareResourceClaim and their counterparts
-- are run_scan_cycle, scan_and_publish, prepare_resource_claims, prepare_resource_claim and so on;
-- the publication of resources and the clock are parameters. Driver/Start.antt is New, and
-- Driver/Loop.antt the life of the driver after it: a relation Step, whose steps are a tick, a
-- triggered cycle, a call of the kubelet for some claims, and anything else on the node, with the
-- runs of them as Reach. The lock of the state and the arbitrary world make these steps a fair
-- picture of the goroutines: a cycle and a call share only the state and the trigger.
-- Driver/Stream.antt is the stream of health reports, WatchHealthStatus, beside these steps; its
-- ticker may tick at any time, and keeps one tick for the loop. Driver/Scans.antt,
-- Driver/Calls.antt, Driver/Guests.antt and Driver/Released.antt follow the mdev and the queues of
-- a claim through these steps; Sample/Machine.antt has both the bus and the mdevs that they
-- suppose. Driver/Cycle.antt, Driver/Reachable.antt, Driver/Offers.antt, Driver/Requests.antt and
-- Driver/Reconcile.antt are about them.
--
-- Main.antt models cmd/cex-dra-kubeletplugin/main.go from the parsed flags to the exit code: the
-- action of the command, validateWorkloadGates, validateMachineID, newKubeClient and runPlugin are
-- action, validate_workload_gates, validate_machine_id, new_kube_client and run_plugin. What it
-- calls outside the repository is the record Libraries. The goroutines of the watchdog and of the
-- scan loop matter to the exit code by the panic of time.NewTicker, which ends the process where
-- Libraries.scheduled lets them run: before driver.New, after it, or when the context ends; a
-- panic amid driver.New is not told from one before it or after it. Main/Exit.antt, with
-- Main/Exit/Usual.antt, and Main/Names.antt are about it. Features.antt models
-- internal/features/features.go over the library of feature gates, and Features/Locked.antt is
-- about what reaches that library. Sysfs/SysInfo.antt models internal/sysfs/reader.go, with its
-- regular expressions as functions, and Sysfs/SysInfo/Printed.antt is about the kernel's file.
-- Sysfs/Masks.antt models internal/sysfs/masks.go, and Version.antt models
-- internal/version/version.go.
--
-- Preflight.antt models internal/preflight/preflight.go over any list of checks: Run,
-- partitionByGate, runOne and mapSeverity are run, partition_by_gate, run_one and map_severity.
-- Preflight/Gates.antt is about the run. Preflight/Checks.antt models the bodies of the checks of
-- internal/preflight/checks.go and their registry, and the files below it are about them.
-- Health.antt models the heartbeat, the probe and the watchdog of internal/health/health.go,
-- Health/Edges.antt is about them, and Health/Server.antt models the service.
--
-- The operating system is the record Os of Os.antt: a world of any type, and calls that may answer
-- and change it in any way, so that a theorem without laws of the kernel holds whatever the kernel
-- does. A failed call hands back its world too, so what was done before a failure stays done. A
-- path is the list of the arguments of filepath.Join. Errors are values that keep the step that
-- failed and what it wraps, without the message. An ENOENT is not_exist, and every other error of
-- the operating system is failed.
--
-- A Go string is the list of its bytes. Go maps with one writer are association lists, and maps
-- that are used as sets are lists without repetition; the order in which the source ranges over a
-- map is a parameter of the claim handlers (Env.range_texts and Env.range_apqns), which may differ
-- from one range to the next. strings.TrimSpace and strings.Fields know the ASCII white space
-- alone, as sysfs has no other. An int64 wraps around in increment and multiply; strconv.FormatInt
-- writes twenty digits at most, which hold every 64-bit number, so that the fuel of format_nat
-- suffices. All other recursion is structural.
--
-- The state lock makes the methods of DeviceState take turns, so each is a function on the state
-- that it finds; giving up the wait for it is a branch (Env.gave_up). Not modelled are log lines
-- and other texts for people, file modes, the declaration of the command line's flags,
-- internal/logphase, and the calls that only stop what a library runs. JSON, SHA-256 and the
-- kubelet's types are parameters, or records with the fields that the driver uses (Resource.antt).
--
-- Prelude.antt and the files below it hold what the others share: tests on numbers, texts and the
-- functions of strings and strconv, dictionaries, sets, and the calls that may fail. Sample.antt
-- holds concrete data, and Tests.antt the theorems at concrete data.
pub mod Prelude
pub mod Os
pub mod Sample
pub mod Tests
pub mod Mdev
pub mod Resource
pub mod Binding
pub mod CryptoConfig
pub mod Sysfs
pub mod ApScanner
pub mod Metadata
pub mod Cdi
pub mod DeviceState
pub mod Preflight
pub mod Driver
pub mod Features
pub mod Health
pub mod Main
pub mod Version
