-- ===== src/Lib.antt =====
-- FastVIP, a layer-4 load balancer on Linux IPVS.
--
-- The program reads a configuration of services with backends (pkg/config), probes the backends
-- (pkg/healthcheck), and on each change or tick reconciles the kernel's IPVS table (pkg/lvs) and the
-- iptables rules (pkg/snat) with what the configuration and the health of the backends ask for. An
-- HTTP proxy (pkg/http), traffic statistics (pkg/trafficlog) and an admin server stand beside it.
--
-- The files:
--   Prelude: names of the library, Booleans, lists and finite maps over the native numbers, errors,
--     and MapRange, the order in which the runtime ranges over a map.
--   Net: the standard library's calls that the program relies on (net.SplitHostPort, net.ParseIP,
--     strconv.Atoi and so on), as a record of functions.
--   Config, Config/Defaults, Config/Validate, Config/Manager: the records, the getters, Validate, and
--     Load and Reload of pkg/config/config.go, with what viper reads as a parameter.
--   Lvs, Lvs/Keys: pkg/lvs/ipvs_models.go and types.go, services, destinations and their keys.
--   Lvs/Handle, Lvs/Manager: the interface IPVSHandle as a record of operations on a state, and the
--     manager over it, pkg/lvs/ipvs_handle.go and manager.go.
--   Lvs/Fake: the in-memory handle of pkg/lvs/ipvs_handle_fake.go; Fake/WellFormed and Fake/Calls
--     hold its invariant.
--   Lvs/Desired, Lvs/Destinations, Lvs/Reconciler: pkg/lvs/reconciler.go, that is buildDesiredState
--     and the rules, reconcileDestinations, Reconcile and Cleanup. Their child modules
--     are about passes over the in-memory handle; Desired/Asked reads what is asked for off the
--     configuration, and Reconciler/Serves says that the handle has it.
--   Lvs/Linux: pkg/lvs/ipvs_handle_linux.go, over the operations of moby/ipvs.
--   Snat, Snat/Fake: pkg/snat/snat.go and manager_fake.go.
--   Snat/Linux: pkg/snat/manager_linux.go, over the operations of go-iptables; Linux/Chains is about
--     NewManager, with Chains/Ready, Linux/Same and Linux/Leak about Reconcile, Linux/Stats about Stats and
--     stats_parse.go.
--   Health: pkg/healthcheck/manager.go; Health/Hysteresis is about the verdict on one backend,
--     Health/Tasks and Health/Targets about the probing goroutines.
--   Http/Pool: pkg/http/pool.go; Pool/Counts and Pool/Bounded are about sequences of its calls.
--   Http/Selector: pkg/http/selector.go, with the int64 counter's wrap-around written out.
--   Http/Transport, Http/Proxy, Http/Manager: transport.go, proxy.go with handler.go, and manager.go
--     of pkg/http, over a network and an http.Server that are records of operations.
--   Metrics: pkg/metrics/metrics.go, each function as its calls of the Prometheus client.
--   TrafficLog: pkg/trafficlog, that is the adapter (Adapter), the poll (Collector, Delta), the log
--     entries (Collector/Logs, and Fields for pkg/logutil/fields.go) and the loop (Loop).
--     Collector/Carry, Collector/Run and Collector/Arrow are about polls and keys.
--   Admin: pkg/admin/server.go; Admin/Answers is about the reload endpoint.
--   Server: pkg/server/server.go, the parts together, with Events for the main loop and what runs
--     beside it, Server/Reached, Server/Ready, Server/Gauges and Server/Valid about events, and
--     Server/KernelParams for kernel_params.go, which KernelParams/Preflight is about.
--   Command: cmd/fastVIP/main.go, the commands once and start; Command/Once is about once.
--   Tests: the theorems at concrete inputs.
--
-- How code becomes definitions. A method is a function from the state to its result and the state
-- after it. A map is an association list with at most one entry of a key; a loop over a map runs over
-- the list that MapRange gives, of which only this is known: it has the same entries, each once. An
-- error is a value with the constant parts of its text; formatted arguments are left out. A uint16
-- conversion wraps. A call that holds the mutex throughout is one step. A pointer that is stored is
-- a value, since the code copies what it stores; a cancelled goroutine is an entry that is gone.
-- Loops are structural recursion, so there is no fuel.
--
-- The server is a record of the states of its parts. What happens to it is an event: a reload of the
-- file, the main loop taking the signal of a reload, the end of a probe, or a tick of the collector.
-- An event is one step, and a run is a list of events. The source is finer: a change of health gives up
-- the lock of the health checks before it reconciles, a change of the configuration takes the locks of
-- the health checks, the reconciler and the gauges one after the other, and StartService of pkg/http
-- looks up and stores under two locks. That another event comes in between is not modelled.
-- A part that talks to the outside (netlink, iptables, the network, http.Server) is a function of a
-- record of operations on a state, and a theorem that needs something of them has a record of laws.
--
-- A state is that of a process that runs: a panic of a goroutine of its own, as that of time.NewTicker for
-- an interval that is not positive (a health check's, or the cleanup_interval of a connection pool), is
-- not modelled. A panic in a modelled call is an error, as that of http.ServeMux at the metrics_path.
--
-- Bounds: Go's int counters of probes and of absent polls and a time.Duration do not wrap in the
-- model. A counter of traffic is below 2 ^ 64, and its sums wrap; a value handed to Prometheus is a
-- float64 there and a natural number here, the same below 2 ^ 53.
--
-- Not modelled: the log, except the traffic entries and the preflight; the Prometheus registry (the
-- counter of reconcile errors is a field of the reconciler); probes over the network; the watch on
-- the configuration file, which ends in a reload; pkg/logutil/logutil.go, which configures a log
-- library; and the flags, the version and the help of the command line.
mod Prelude
pub mod Net
pub mod Config
pub mod Health
pub mod Snat
pub mod Lvs
pub mod Http
pub mod Metrics
pub mod TrafficLog
pub mod Admin
pub mod Command
pub mod Server
mod Tests
