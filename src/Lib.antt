-- ===== src/Lib.antt =====
-- A verification library for the Go runtime control plane
-- (extracted/go-runtime-control-plane/internal/runtime): how it admits agent runs to runtime hosts.
--
-- The program. Runtime hosts register and send heartbeats (RuntimeHostRepository, in
-- runtime_host_repository.go, runtime_host_concurrency.go and runtime_host_reconcile.go). A run
-- reserves a slot on a host under a fence, gets a dispatch that is bound to the reservation, and is
-- accepted, recovered or finished; six counters of each host follow the reservations. The events of a
-- dispatch go to a log with a cursor, and the tool calls among them to a table of invocations
-- (runtime_tool_audit.go). RuntimeSessionAdmissionService (runtime_session_admission.go) admits one run
-- at a time to a product session under a distributed lock, and an outbox of cleanup records sees to it
-- that the locks of ended admissions are freed. Beside it
-- RuntimeCapacityAdmissionService (runtime_capacity_admission.go) reserves units of models, pools,
-- tools, tenants and users. RuntimeScheduler (runtime_scheduler.go) accepts a dispatch in both at
-- once, and decides what becomes of a dispatch whose owner was lost. A host may only be chosen if its
-- capability snapshot passes runtime_capability_client.go and the contracts of capability_planner.go.
--
-- The files. Each names the code it is about in its first lines; operations keep the names of the Go
-- methods, in snake case.
--   Prelude: tests, lists, maps, results, 64-bit words and texts.
--   Capabilities: tool contracts and snapshot validation; Capabilities/Readiness is about has_tools.
--   Hosts/Types, Slots, Store: the data, the counters, the fences. Hosts/Reserve: TryReserveSlot.
--   Hosts/Lease: RenewReservation, MarkDispatchLeaseLost, ReleaseReservation, ExpireReservations.
--   Hosts/Dispatches: createDispatch, MarkDispatchSent, MarkDispatchSubmitUnknown,
--   MarkDispatchAbortStatus, MarkDispatchTerminal. Hosts/Accept: ConfirmDispatchAccepted.
--   Hosts/Recovery: ListDispatchRecoveryCandidates, ClaimDispatchRecovery,
--   AssertDispatchRecoveryClaim, AdvanceDispatchRecovery, RecoverDispatchAccepted and
--   FinalizeDispatchAndReleaseSlot. Hosts/Registry: RegisterHost, HeartbeatHost, SetHostStatus,
--   RecalculateHostCounters and ReconcileHostHealth.
--   Hosts/Cases: what each operation may write, as a rule for any property of repositories.
--   Hosts/Accounting: the counters against a count of the reservations, and the index of the runs.
--   Hosts/System: the repository as a step relation, with its reachable states.
--   Hosts/Admission, Fencing, Lifecycle: the properties of the operations.
--   Capacity, Scheduler: their components, with their properties in the child modules.
--   Scheduler/Handles: Renew, BindDispatch, Accept, ReleaseBeforeAccept, ReleaseAfterTerminal and
--   DrainHost, each over the services that it calls; one reading of the clock stands for those of a
--   call, and the stop of the lease supervisor's loop is left out.
--   Sessions/Keys: RedisKey, with its reader in Sessions/Keys/RoundTrip. Sessions/Types: the data.
--   Sessions/Admit: Acquire, Renew, AssertActive, AssertActiveDispatchFence. Sessions/Bind: the binds
--   and lookups, ReleaseTerminalLease. Sessions/Release: Release, Recover and the backfill.
--   Sessions/Cleanup, Drain: the worker that claims, completes and retries cleanup records.
--   Sessions/System: the abstract machine of admissions and records (Write), the calls as steps, and
--   what they keep. Sessions/History: what later calls leave. Sessions/Bounds, Sweep: the
--   report of the drain, and what Recover does.
--   Events: AppendRunEventAndAdvanceCursor, GetDispatchEventCursor; Events/Tools: the projection of
--   tool calls. Events/Log, Order, History, Invocations: their properties.
--   Examples, CapacityExamples, SessionExamples, Witnesses, SessionWitnesses, EventWitnesses,
--   HandleWitnesses: runs of the program, and the properties applied to them.
--
-- The model. State is passed explicitly: an operation takes the repository and gives the new one with
-- its result or error code. A method of the host repository holds its mutex from its first read to its
-- last write, so a history of the process is a sequence of whole calls, and the steps of Hosts/System
-- are that; ReconcileHostHealth alone takes the mutex three times and is one step. The clock and the caller's times are arguments, and nothing is assumed about them.
-- Identifiers, hashes and times are numbers, where 0 is the empty text or the zero time; states are
-- the closed sets of words that the code writes. Go maps are association lists; where the code walks a
-- map in Go's random order, the model walks its list, and no property depends on that order. Versions,
-- attempts and fencing tokens are unbounded numbers: they grow by 1 per write and do not reach 2 ^ 63.
-- The unit counts of capacity are 64-bit words with their wrap-around. There is no fuel: every loop
-- goes down a list. The admission target of a host, max*3+3 in Go's int, does not wrap either, and the
-- shares by which hosts are ordered are fractions, where the code has float64. The digests (SHA-256 over canonical JSON) are parameters.
--
-- In Sessions the lock manager, which is another package, stands for its answers: they are arguments,
-- any answer may come, and nothing is assumed of it but that the fencing tokens of one key differ, so
-- that an admission gets a new identifier. The texts of a session key are lists of bytes. bind leaves
-- the mutex free between its assertion and its write, which does not test the state again: `bind` takes
-- what other calls do there as an argument, and in Sessions/System its write is a step of its own. That
-- step is taken while the admission is active, so Reach and Steps are the histories in which no bind is
-- overtaken by the end of its admission; the code does not rule out the others. Acquire enters the handle
-- in a second hold of the mutex, and DrainAdmissionCleanup takes it for each call that it makes; these are
-- one step, and the calls of a drain are steps of their own too. DrainAdmissionCleanup
-- counts the rounds left under its limit, so its loop needs no fuel.
-- In Events the payload of an event stands as its hash, and a tool event comes parsed.
--
-- Assumed of the callers: reservations and dispatches are made under new identifiers (UUIDs), and a
-- dispatch keeps its run.
--
-- Not modelled: the Postgres branches of the operations, which are SQL transactions; the JSON of
-- event payloads, product session bindings and read-only lists; the
-- scheduler's Reserve and its recovery loop; run records, recovery attestations,
-- the cleanup of terminal convergences, the lease supervisor and the terminal converger; the HTTP client, the adapter
-- process, the TypeScript driver, the workers and the storage layer. In the classification for
-- recovery, the test of an error text for "not found" is an argument.
pub mod Prelude
pub mod Capabilities
pub mod Capacity
pub mod Hosts
pub mod Scheduler
pub mod Sessions
pub mod Events
pub mod Examples
pub mod CapacityExamples
pub mod SessionExamples
pub mod Witnesses
pub mod SessionWitnesses
pub mod EventWitnesses
pub mod HandleWitnesses
