-- ===== src/Events.antt =====
-- Run events of extracted/go-runtime-control-plane/internal/runtime, in memory:
-- AppendRunEventAndAdvanceCursor and GetDispatchEventCursor of runtime_host_concurrency.go.
pub mod Tools
pub mod Log
pub mod Order
pub mod History
pub mod Invocations
use yuex.Prelude.{
  ℕ, ◌+◌, Bool, true, false, not, ◌&&◌, ◌||◌, Option, none, some, List, [], ◌∷◌, ◌++◌, Map, lookup,
  insert, length, ltb, ◌==◌, is_zero, if◌then◌else◌, ErrorCode, Result, Done, ok, err,
  invalid_argument, not_found, runtime_event_gap,
}
use yuex.Hosts.Types.{Dispatch, DispatchState}
use yuex.Events.Tools.{
  RunRecord, RunStatus, ToolAudit, ToolInvocation, is_started, project_invocation, run_ended,
}

-- RuntimeHostRunEvent. The type is a number for its text; the payload and the usage stand as the hash
-- that runtimeEventPayloadHash makes of them and of the type; the time is the one after its default.
pub record RunEvent : Type 0 where
  pub event_id : ℕ
  pub run_id : ℕ
  pub dispatch_id : ℕ
  pub runtime_host_id : ℕ
  pub sequence : ℕ
  pub source_sequence : ℕ
  pub event_type : ℕ
  pub payload_hash : ℕ
  pub occurred_at : ℕ

-- The maps of RuntimeHostRepository that events are written to.
pub record EventLog : Type 0 where
  pub events : Map (List RunEvent)
  pub cursors : Map ℕ
  pub run_records : Map RunRecord
  pub invocations : Map ToolInvocation

-- The maps of NewRuntimeHostRepository.
abbrev pub empty_log : EventLog
empty_log = record { events = []; cursors = []; run_records = []; invocations = [] }

-- A missing entry reads as no events.
abbrev pub events_of : ℕ → EventLog → List RunEvent
events_of run log = elim (lookup run log.events) [ none ↦ [] | some events ↦ events ]

-- A missing entry reads as 0.
abbrev pub cursor_of : ℕ → EventLog → ℕ
cursor_of dispatch log = elim (lookup dispatch log.cursors) [ none ↦ 0 | some cursor ↦ cursor ]

-- The first event of the dispatch with the source sequence.
unfoldable pub find_event : ℕ → ℕ → List RunEvent → Option RunEvent
find_event dispatch source [] = none
find_event dispatch source (e ∷ more) =
    let rest = find_event dispatch source more in
    if e.dispatch_id == dispatch && e.source_sequence == source then some e else rest

-- runtimeDispatchTerminal
abbrev pub dispatch_is_over : DispatchState → Bool
dispatch_is_over DispatchState.succeeded = true
dispatch_is_over DispatchState.failed = true
dispatch_is_over DispatchState.timeout = true
dispatch_is_over DispatchState.aborted = true
dispatch_is_over DispatchState.rejected = true
dispatch_is_over DispatchState.orphaned = true
dispatch_is_over state = false

-- The record of the run is there, and terminal.
abbrev pub record_is_over : Option RunRecord → Bool
record_is_over none = false
record_is_over (some kept) = run_ended kept.status

-- A tool call that starts after its dispatch or its run is over.
unfoldable pub starts_late : Option ToolAudit → Dispatch → EventLog → Bool
starts_late none d log = false
starts_late (some audit) d log =
    is_started audit.outcome
    && (dispatch_is_over d.state || record_is_over (lookup d.run_id log.run_records))

-- The projection of a tool audit, where the event has one.
unfoldable pub project : (ℕ → ℕ → ℕ) → ℕ → Option ToolAudit → EventLog → Result EventLog
unfolding project_invocation
project name run none log = ok log
project name run (some audit) log =
    elim (project_invocation name run audit log.run_records log.invocations) [
      | err e ↦ err e
      | ok invocations ↦ ok (record log { invocations = invocations })
    ]

-- The append, after the projection.
unfoldable pub store_event : RunEvent → EventLog → EventLog
store_event e log = record log {
  events =
      insert e.run_id
        (events_of e.run_id log
          ++ (record e { sequence = length (events_of e.run_id log) + 1 } ∷ []))
        log.events;
  cursors = insert e.dispatch_id e.source_sequence log.cursors;
}

abbrev pub is_gap : RunEvent → ℕ → Bool
is_gap e previous =
    is_zero e.event_id
    || is_zero e.run_id
    || is_zero e.dispatch_id
    || ltb e.source_sequence 1
    || not (e.source_sequence == previous + 1)

-- The event of a source sequence that is new.
unfoldable pub append_new :
    (ℕ → ℕ → ℕ) → RunEvent → Option ToolAudit → ℕ → Dispatch → EventLog → EventLog × Done
unfolding starts_late project store_event
append_new name e audit previous d log =
    if starts_late audit d log || not (cursor_of e.dispatch_id log == previous)
    then (log, err runtime_event_gap)
    else elim (project name e.run_id audit log) [
      | err x ↦ (log, err x)
      | ok log' ↦ (store_event e log', ok tt)
    ]

-- A second event of one source sequence has to be the first one again.
abbrev pub repeated : RunEvent → RunEvent → Done
repeated e old =
    if old.event_type == e.event_type && old.payload_hash == e.payload_hash
    then ok tt
    else err runtime_event_gap

-- The part of AppendRunEventAndAdvanceCursor under the mutex.
unfoldable pub append_for :
    (ℕ → ℕ → ℕ) → RunEvent → Option ToolAudit → ℕ → Dispatch → EventLog → EventLog × Done
unfolding find_event append_new
append_for name e audit previous d log =
    if not (e.run_id == d.run_id) || not (e.runtime_host_id == d.runtime_host_id)
    then (log, err runtime_event_gap)
    else elim (find_event e.dispatch_id e.source_sequence (events_of e.run_id log)) [
      | some old ↦ (log, repeated e old)
      | none ↦ append_new name e audit previous d log
    ]

-- AppendRunEventAndAdvanceCursor. `audit` is what parseRuntimeToolAuditEvent makes of the payload of a
-- tool event, and nothing for another event; `name` is the digest of runtimeToolInvocationID.
unfoldable pub append_run_event :
    (ℕ → ℕ → ℕ)
    → RunEvent
    → Result (Option ToolAudit)
    → ℕ
    → Map Dispatch
    → EventLog
    → EventLog × Done
unfolding append_for
append_run_event name e audit previous dispatches log =
    if is_gap e previous then (log, err runtime_event_gap) else elim audit [
      | err x ↦ (log, err x)
      | ok audit ↦ elim (lookup e.dispatch_id dispatches) [
        | none ↦ (log, err not_found)
        | some d ↦ append_for name e audit previous d log
      ]
    ]

-- RuntimeDispatchEventCursor of an in-memory dispatch, whose lower bound is 1.
pub record EventCursor : Type 0 where
  pub dispatch_id : ℕ
  pub last_sequence : ℕ
  pub lower_bound : ℕ

-- GetDispatchEventCursor
unfoldable pub get_dispatch_event_cursor : ℕ → Map Dispatch → EventLog → Result EventCursor
get_dispatch_event_cursor id dispatches log =
    if is_zero id then err invalid_argument else elim (lookup id dispatches) [
      | none ↦ err not_found
      | some d ↦ ok (record { dispatch_id = id; last_sequence = cursor_of id log; lower_bound = 1 })
    ]
