-- ===== src/Events/Tools.antt =====
-- Tool invocations of runtime_tool_audit.go, in memory: projectRuntimeToolInvocationMemoryLocked and
-- abortOutstandingRuntimeToolInvocationsMemory. An event comes parsed; texts and hashes are numbers.
use yuex.Prelude.{
  ℕ, Bool, true, false, not, ◌&&◌, none, some, Map, lookup, insert, map_values, ltb, ◌==◌,
  if◌then◌else◌, Result, ok, err, runtime_event_gap, runtime_run_record_unavailable,
}

pub data ToolOutcome : Type 0 where
  started succeeded failed aborted rejected : ToolOutcome

pub data ToolEventType : Type 0 where
  call_started call_finished call_rejected : ToolEventType

-- runtimeToolAuditEvent
pub record ToolAudit : Type 0 where
  pub event_type : ToolEventType
  pub schema_version : ℕ
  pub tool_name : ℕ
  pub tool_call_hash : ℕ
  pub args_hash : ℕ
  pub result_fingerprint : ℕ
  pub outcome : ToolOutcome
  pub duration_ms : ℕ
  pub bytes : ℕ
  pub call : ℕ
  pub repeat : ℕ
  pub error_code : ℕ

-- runtimeToolAuditInvocation
pub record ToolInvocation : Type 0 where
  pub invocation_id : ℕ
  pub run_id : ℕ
  pub tool_name : ℕ
  pub args_hash : ℕ
  pub workspace_version : ℕ
  pub result_fingerprint : ℕ
  pub status : ToolOutcome
  pub repeat : ℕ
  pub cache_hit : Bool
  pub duration_ms : ℕ
  pub bytes : ℕ
  pub call : ℕ
  pub error_code : ℕ
  pub schema_version : ℕ
  pub tool_call_hash : ℕ
  pub terminal_converged : Bool

pub data RunStatus : Type 0 where
  succeeded failed timeout aborted rejected orphaned forbidden cancelled unfinished : RunStatus

-- What events read of a run record.
pub record RunRecord : Type 0 where
  pub workspace_version : ℕ
  pub status : RunStatus

-- runtimeRunRecordV1TerminalStatus
abbrev pub run_ended : RunStatus → Bool
run_ended RunStatus.unfinished = false
run_ended status = true

abbrev pub is_started : ToolOutcome → Bool
is_started ToolOutcome.started = true
is_started outcome = false

abbrev pub opens_invocation : ToolOutcome → Bool
opens_invocation ToolOutcome.started = true
opens_invocation ToolOutcome.rejected = true
opens_invocation outcome = false

abbrev pub is_finished : ToolEventType → Bool
is_finished ToolEventType.call_finished = true
is_finished event_type = false

abbrev pub outcome_eq : ToolOutcome → ToolOutcome → Bool
outcome_eq ToolOutcome.started ToolOutcome.started = true
outcome_eq ToolOutcome.succeeded ToolOutcome.succeeded = true
outcome_eq ToolOutcome.failed ToolOutcome.failed = true
outcome_eq ToolOutcome.aborted ToolOutcome.aborted = true
outcome_eq ToolOutcome.rejected ToolOutcome.rejected = true
outcome_eq a b = false

-- runtimeToolAuditInvocationMatchesEvent
unfoldable pub invocation_matches_event : ToolInvocation → ToolAudit → Bool
invocation_matches_event stored e =
    outcome_eq stored.status e.outcome
    && stored.result_fingerprint == e.result_fingerprint
    && stored.repeat == e.repeat
    && stored.duration_ms == e.duration_ms
    && stored.bytes == e.bytes
    && stored.call == e.call
    && stored.error_code == e.error_code
    && stored.schema_version == e.schema_version
    && stored.tool_call_hash == e.tool_call_hash

-- What an event may not change.
unfoldable pub same_call : ToolInvocation → ℕ → ToolAudit → Bool
same_call stored workspace e =
    stored.tool_name == e.tool_name
    && stored.args_hash == e.args_hash
    && stored.workspace_version == workspace
    && not stored.cache_hit
    && stored.schema_version == e.schema_version
    && stored.tool_call_hash == e.tool_call_hash
    && stored.call == e.call

unfoldable pub new_invocation : ℕ → ℕ → ℕ → ToolAudit → ToolInvocation
new_invocation id run workspace e = record {
  invocation_id = id;
  run_id = run;
  tool_name = e.tool_name;
  args_hash = e.args_hash;
  workspace_version = workspace;
  result_fingerprint = e.result_fingerprint;
  status = e.outcome;
  repeat = e.repeat;
  cache_hit = false;
  duration_ms = e.duration_ms;
  bytes = e.bytes;
  call = e.call;
  error_code = e.error_code;
  schema_version = e.schema_version;
  tool_call_hash = e.tool_call_hash;
  terminal_converged = false;
}

unfoldable pub finished_invocation : ToolAudit → ToolInvocation → ToolInvocation
finished_invocation e stored = record stored {
  result_fingerprint = e.result_fingerprint;
  status = e.outcome;
  repeat = e.repeat;
  duration_ms = e.duration_ms;
  bytes = e.bytes;
  call = e.call;
  error_code = e.error_code;
  schema_version = e.schema_version;
  tool_call_hash = e.tool_call_hash;
}

-- The event of an invocation that is stored.
unfoldable pub project_stored :
    ℕ → ToolInvocation → ℕ → ToolAudit → Map ToolInvocation → Result (Map ToolInvocation)
unfolding invocation_matches_event same_call finished_invocation
project_stored id stored workspace e invocations =
    if not (same_call stored workspace e)
    then err runtime_event_gap
    else if is_started stored.status && not (is_started e.outcome)
    then if is_finished e.event_type
      then ok (insert id (finished_invocation e stored) invocations)
      else err runtime_event_gap
    else if invocation_matches_event stored e
    then ok invocations
    else err runtime_event_gap

-- projectRuntimeToolInvocationMemoryLocked
unfoldable pub project_invocation :
    (ℕ → ℕ → ℕ) → ℕ → ToolAudit → Map RunRecord → Map ToolInvocation → Result (Map ToolInvocation)
unfolding project_stored new_invocation
project_invocation name run e records invocations = elim (lookup run records) [
  | none ↦ err runtime_run_record_unavailable
  | some kept ↦
      let id = name run e.tool_call_hash in
      if ltb kept.workspace_version 1
      then err runtime_run_record_unavailable
      else elim (lookup id invocations) [
        | none ↦
            if opens_invocation e.outcome
            then ok (insert id (new_invocation id run kept.workspace_version e) invocations)
            else err runtime_event_gap
        | some stored ↦ project_stored id stored kept.workspace_version e invocations
      ]
]

unfoldable pub aborted_invocation : ℕ → ℕ → ToolInvocation → ToolInvocation
aborted_invocation run code stored =
    if stored.run_id == run && is_started stored.status
    then record stored {
      status = ToolOutcome.aborted;
      error_code = code;
      terminal_converged = true;
    }
    else stored

-- abortOutstandingRuntimeToolInvocationsMemory, with the number of RUNTIME_ABORTED
unfoldable pub abort_outstanding : ℕ → ℕ → Map ToolInvocation → Map ToolInvocation
unfolding aborted_invocation
abort_outstanding run code invocations = map_values (aborted_invocation run code) invocations
