-- ===== src/Lib.antt =====
-- epochd: fake time for processes and for the containers of a cluster.
--
-- The program gives a Linux process a clock of its own. pkg/inject stops the process through
-- ptrace, maps one page near its vDSO, writes the payload of pkg/trampoline there and patches the
-- three vDSO entries that read the clock, so that they jump into the payload; the payload adds the
-- offset of a state struct to what the kernel reports, or reports the struct itself. Afterwards the
-- struct is rewritten by process_vm_writev alone. cmd/agent does this for the containers of a node,
-- pkg/faketime for the processes that a program starts, and cmd/controller keeps the registry of
-- timeshifts of a cluster, saves it in a ConfigMap, calls the agents and answers the HTTP requests of
-- pkg/sdk.
--
-- The files, by the code they are about:
--   Base and its children: shared names, tests, lists, integers, 64-bit words. Clock: Go's package
--     time as far as it is used, with instants in nanoseconds and the saturating Sub. Memory: the
--     bytes of a process.
--   Trampoline: pkg/trampoline/trampoline.go (EncodeState, DecodeState); Trampoline/Hooks: the
--     entries of pkg/trampoline/trampoline.asm over words below 2 ^ 64, the system calls being
--     parameters; RoundTrip, Advancing, Installed and Reads hold the proofs.
--   Procmem: the Tracer of pkg/procmem/procmem.go as a monad over a tracee that may refuse any
--     request and runs freely between a resume and a stop; ByPid has the requests that name a process.
--   Vdso: pkg/vdso/vdso.go, the search for the mapping and the symbols.
--   Inject: pkg/inject/inject.go. Gap is findNearbyGap, Jump the five bytes of a patch, Mmap
--     remoteMmap with its retries and its cleanup, Handle the handle and its updates, Sequence
--     injectWithTracer and the exported functions above it.
--   Faketime: the Handle of pkg/faketime/faketime.go. Heap holds the handles by reference and the
--     calls on a list of them; Session is the Session, with its steps in Session/Reached; Tracker is
--     the ChildTracker: the events of a tree of processes with the injection after an exec, and in
--     Tracker/Update the methods of its caller and watchLoop; Launch has the functions that start or
--     attach to one process.
--   Agent: the server of cmd/agent/main.go over the processes of a node.
--   Controller: cmd/controller/controller.go and watcher.go. Registry is the map of timeshifts,
--     Create, Update, Remove and Watch the operations, Invariant the step relation on the whole; Threads
--     splits the operations into the sections between their locks and calls, which interleave; Store
--     is store.go with restore, Handlers handlers.go over the bodies of pkg/api/api.go, in Api.
--   Resolve: LookupPID of pkg/k8sresolve/k8sresolve.go.
--   Sdk: the client of pkg/sdk/sdk.go over any transport, with WaitForActive and
--     withTimeMode in Scoped; Service puts the handlers behind it.
--   Cluster: the pool of pkg/agentclient/agentclient.go, which joins Controller to an Agent on each
--     node.
--   Ctl: the command line tool cmd/faketimectl. Flags is the standard library's parse of flags, Args and
--     Commands are cmds_controller.go and the switch of main.go, Local the checks of cmds_inject.go
--     and cmds_run.go with the exit code, Watch runWatchLoop of cmds_run.go; Service runs the tool
--     against the handlers.
--   Examples: runs at concrete values.
--
-- A uint64, a uintptr and a register are numbers below 2 ^ 64 whose wrap-around is written out; an
-- int64 is an integer, with its range as a hypothesis where it matters. Loops are structural recursion
-- on the list they walk, but for three that wait for the outside: WaitForActive, where the fuel is more
-- than the pauses before the context ends, and watchLoop and runWatchLoop, where it is more than the
-- rounds before they are closed.
--
-- Parameters stand for the kernel and the tracee (Procmem.Env, Hooks.Kernel), for what is read from
-- /proc and by debug/elf (Vdso.ProcFs), for the answers of the agents (Controller.Agents, which
-- Cluster fills with servers of the agent), of the
-- Kubernetes API and of the label selectors, for encoding/json (Store.Json, Sdk.Decoders), for the
-- formats and sorts of the standard library (Handlers.Formats), for the transport and the context of
-- a client (Sdk.World), for what wait4 and a fork event report (Tracker.Update.Round, Tracker.Reading,
-- Ctl.Watch.Round), for strconv.ParseInt,
-- and for every reading of the clock.
--
-- Not modelled: the pod watcher among the interleaved operations; the goroutines of an update of
-- pkg/faketime, which are run one after the other; the kill of a process whose injection failed in a
-- session; the calls of the tracer behind the requests of the child tracker; the start of the command of
-- `faketimectl run`; the text of errors, events and usages and the alignment of tables; the metrics and
-- logs around a handler; gRPC, logging and the registration of metrics.
pub mod Base
pub mod Clock
pub mod Memory
pub mod Trampoline
pub mod Procmem
pub mod Vdso
pub mod Inject
pub mod Faketime
pub mod Agent
pub mod Resolve
pub mod Api
pub mod Controller
pub mod Sdk
pub mod Cluster
pub mod Ctl
pub mod Examples
