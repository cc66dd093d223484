-- ===== src/Lib.antt =====
-- A model of the core of suctl: the part that supervises module processes, routes the requests
-- between them and the face, and decides which jobs may run side by side.
--
-- The parts and how they interact. A request enters the broker (internal/broker), either from the
-- face or over the wire of a module. An invoke is checked against the modules store
-- (internal/module), recorded in the messages store (internal/messages), and, if the face sent it,
-- queued until the queue manager (internal/broker/queue.go) finds the footprint of its module
-- disjoint from those of all running jobs (internal/gate). It is then routed to an in-process
-- handler or over the mux of the module's wire (internal/wire). Reports of asynchronous jobs come
-- back as job_update requests. Jobs are not stored: they are derived from the recorded exchanges
-- (internal/messages/jobs.go). Each module process is kept by a supervisor (internal/supervisor)
-- and watched by a health monitor (internal/health); the lifecycle coordinator (internal/startup)
-- acts on what the monitor reports, and activates and unloads modules, with their hooks
-- (internal/hooks). What a module is, its manifest says (sdk/manifest).
--
-- The store of modules comes from a scan of the directories on disk (internal/module/scan.go). Which
-- modules the operator wants is kept in one flag file for each (internal/activation), so that a start
-- brings up those again (internal/startup/startup.go), with the setup hook of an upgrade where the
-- content differs from the checksum in the flag. The operator changes it through the capabilities of
-- the system module (internal/system), which also shows modules, jobs and exchanges to the face
-- (internal/surface), each caller its own.
--
-- The files.
--   Prelude: lists, dictionaries, tests, sorting, shared lemmas.
--   Protocol, Protocol/Values, Protocol/Code: sdk/protocol/types.go and the JSON values in it.
--   Messages, Messages/Jobs: internal/messages/store.go and jobs.go, one function for each method.
--     Messages/Trim, Invariant, History, Eviction, Lifecycle, Promotion, Reports, Tokens, Derived, Filled,
--     Opened and Calm: their theorems.
--   Gate, Broker/Queue: internal/gate/gate.go and internal/broker/queue.go. Broker/Plan,
--     Broker/Overtaking and Broker/Exclusive: their theorems.
--   Broker/Core, Broker/Invoke, Broker/Updates, Broker/World: internal/broker/broker.go and
--     probe.go. Broker/Gates, Broker/Exchange, Broker/Reports, Broker/Replies, Broker/Isolation and
--     Broker/Handled: their theorems.
--   Modules, Modules/Route, Modules/Requirements, Modules/Footprint: internal/module/store.go,
--     route.go and requirements.go. Modules/Requirements/Marking, Passes and Fixpoint, and
--     Modules/Footprint/Closure: their theorems.
--   Manifest, Manifest/Surfaces: sdk/manifest/manifest.go. Manifest/Validation, Manifest/Subjects:
--     their theorems.
--   Health, Health/Escalation: internal/health/health.go.
--   Supervisor, Supervisor/Restarts: internal/supervisor/supervisor.go.
--   Wire, Wire/Calls: internal/wire/wire.go and call.go.
--   Client: sdk/brokerclient/brokerclient.go, the module's end of the wire. Client/Hops and
--     Client/Mirror: its theorems.
--   Config, Config/Usable: internal/config/config.go.
--   Hooks: internal/hooks/hooks.go.
--   Startup: internal/startup/lifecycle.go, deactivate.go and stop.go. Startup/Teardown and
--     Startup/Episodes: their theorems.
--   Startup/Activate: internal/startup/activate.go and handshake.go. Startup/Checks, Startup/Rollback
--     and Startup/Reachable: their theorems.
--   Startup/Missing: internal/startup/requirements.go, and Startup/Better and
--     Startup/Mending: its theorem.
--   Startup/Boot: internal/startup/startup.go and the rest of activate.go. Startup/Booted,
--     Startup/Undisturbed, Attempted, Booting and Drift: their theorems.
--   Activation, Activation/Names: internal/activation/activation.go and the texts of file names.
--     Activation/Flags and Activation/Sequences: their theorems.
--   Modules/Scan: internal/module/scan.go. Modules/Scan/Order, Walk and Conflicts: their theorems.
--   System, System/Cascade: internal/system/handlers.go and sdk/protocol/cascade.go. System/Intent and
--     System/Consent: their theorems.
--   System/Views, System/Jobs, System/Exchanges: the surveys and pages of internal/system/handlers.go,
--     jobs.go, jobs_helpers.go and messages.go. System/Visibility: their theorems.
--   Surface, Surface/Orchestrator: sdk/surface/surface.go and internal/surface/orchestrator.go.
--     Surface/Stream: the theorem on the stream of reports.
--   Tests: the theorems at concrete data.
--
-- How state is modelled. A Go map is an association list, whose order stands for the order in which
-- `range` visits it; a set of modules is a list. Times are natural numbers, and the zero time is 0.
-- A step reads the clock once, and its reading is an argument. Code under one mutex is one function;
-- handleInvoke, which parks, is cut into begin_invoke, poll, and finish_invoke or abandon_invoke, and
-- Broker/World gives the steps of the goroutines of several invokes, so that a list of events is an
-- interleaving. In-process handlers, the far end of a wire, processes, and the presence of binaries
-- and paths are arguments. Effects such as a signal, a hook or a callback are entries of a list that
-- a step returns. A text of fmt.Sprintf is its format with its arguments.
--
-- Fuel. collect_footprint and collect_inactive take one level for each module of the store and one
-- more: a level adds a module that was not in the set, so deeper levels are never reached.
-- capability_phase takes as many passes: each one but the last marks a module. gather, the loop of
-- List, stops at its limit as the Go loop does. The loop of runRequirementMissingHooks has a round for
-- each requirement and one more, which is enough where a run of the hook takes away no binary, no path
-- and no configuration key that was there; it may go on for ever otherwise, and the start then leaves the record alone
-- in the model.
--
-- Not modelled: data races between two critical sections of one handler, other than the cut of
-- handleInvoke; case-insensitive and duplicate JSON keys; the text of decoder errors; sort.Slice on
-- ties, where a stable order is taken; how a hook's script or capability ends, which is an argument, and
-- so are the faults of the file system, the self test of a module and the checksum of its files; the
-- self test of core, the resolution of an entrypoint to a command line, and module.conf; the interface
-- on the terminal, installation, the rest of the module SDK and the bundled modules.
pub mod Prelude
pub mod Protocol
pub mod Messages
pub mod Gate
pub mod Activation
pub mod Broker
pub mod Client
pub mod Manifest
pub mod Modules
pub mod Health
pub mod Supervisor
pub mod Surface
pub mod System
pub mod Wire
pub mod Config
pub mod Hooks
pub mod Startup
pub mod Tests
