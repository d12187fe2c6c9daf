-- ===== src/Lib.antt =====
-- A model of kured, the Kubernetes reboot daemon: a process on each node that reboots the node when the
-- operating system asks for it, one node (or a fixed number) at a time.
--
-- The parts. `rebootAsRequired` (cmd/kured/main.go) is the loop of a node. It asks a checker whether a
-- reboot is required, a time window and blockers whether it may happen now, takes a lock that all
-- nodes share, cordons and drains the node, and reboots it; after the reboot, at startup, it uncordons
-- the node and releases the lock. While another node has the lock it sets a taint on its own. The
-- lock (pkg/daemonsetlock) is an annotation of the DaemonSet at the Kubernetes API server, written
-- with optimistic concurrency.
--
-- The files.
-- Common: shared names, tests, lists, texts, integers.
-- DaemonSetLock/Value, Reply: the data of pkg/daemonsetlock/daemonsetlock.go, and what its methods
--   return. DaemonSetLock/Api: the API server and the JSON form, as records of operations and laws.
-- DaemonSetLock/Retry: `GetDaemonSet` and the loop that `Acquire` and `Release` of both locks run.
-- DaemonSetLock/Single, Multi: the methods of `DaemonSetSingleLock` and `DaemonSetMultiLock`. A
--   method is split into a decision on the DaemonSet that it has read (`acquire_decide`,
--   `release_decide`, `holding_daemon_set`) and the loop of Retry.
-- DaemonSetLock/Cluster: nodes that run the methods against one server, interleaved call by call. The
--   interface `Discipline` is what its proofs use of a lock; Single/Nodes and Multi/Nodes fill it.
--   Cluster/Leases is the abstract lock, and Cluster/Refinement relates the nodes to it.
-- Kube: the calls of the rest of the program, programs over them, runs and monitors.
-- Taints: pkg/taints/taints.go; Taints/Patch has the meaning of its JSON patches.
-- Blockers: pkg/blockers/blockers.go; Blockers/Prometheus is prometheus.go and Blockers/Pods
--   kubernetespod.go in that directory.
-- TimeWindow: pkg/timewindow. Days has the sets of weekdays, Clock the parser of clock times, Window
--   `TimeWindow`; the loop of Main takes its `contains_time` as an argument.
-- Checkers: pkg/checkers. Rebooters: pkg/reboot. Internal: internal/validators.go.
-- Main: cmd/kured/main.go. Main/Loop has one tick of each loop of `rebootAsRequired`, Main/Rounds the two
--   loops in their order; Main/Status has the rules of a tick of the second, Main/Startup those of the
--   first, and Main/Rounds/Boot those of both: monitors of the calls that do not look at the code.
--   Main/Progress has worlds that let a tick reach its end. Main/Fleet has nodes that run ticks of
--   the second loop over the shared lock. Main/Env is `LoadFromEnv`, Main/Settings the variables of the
--   flags and their declarations, Main/Start the rest of `main`, Main/Pflags cmd/kured/pflags.go.
--
-- Bounds. `run` of DaemonSetLock/Retry takes the environment's turns, one for each round, so it gives
-- no result while the method would still retry; the number of rounds is not bounded in the code
-- either. The loops of `rebootAsRequired` never end in the code; Main/Rounds gives each a number of
-- ticks, and its theorems are about every number. The poll of `GetDaemonSet` is the list of its
-- attempts. A time is the number of nanoseconds since the year 1, and a difference of times saturates
-- at the largest duration. A decision of a lock reads the clock once. Other numbers of the code are lengths and concurrency, which stay far from the
-- bounds of int. `decimal_from` of Checkers has fuel above the number that it prints.
--
-- Parameters, since they are not in the repository: the API server, the data of time zones, the shell
-- lexer, the regular expressions, the JSON form of the lock, the flag set of pflag, and what answers the
-- calls of a tick (the API, kubectl's drain, the notification service). So are the parsers of
-- durations and URLs and the environment. A world answers by all that has happened before. Taints/Patch
-- applies a patch to a node as RFC 6902 says.
--
-- Not modelled: the log and its messages and format, the metric (`maintainRebootRequiredMetric`) and the
-- HTTP handler that serves it, which are pure output; the goroutine of pkg/delaytick, which is timers
-- and a random first delay.
pub mod Common
pub mod DaemonSetLock
pub mod Kube
pub mod Taints
pub mod Blockers
pub mod TimeWindow
pub mod Checkers
pub mod Rebooters
pub mod Internal
pub mod Main
