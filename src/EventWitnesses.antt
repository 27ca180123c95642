-- ===== src/EventWitnesses.antt =====
-- Two events of one dispatch are appended, and a tool call is started and finished. The properties of
-- Events are applied to them.
use yuex.Prelude.{
  ℕ, ◌+◌, ◌*◌, ◌≡◌, ◌≢◌, refl, false, none, some, [], ◌∷◌, Map, ok, err, arith, lookup, insert,
  length, runtime_event_gap,
}
use yuex.Hosts.Types.{Dispatch}
use yuex.Examples.{draft}
use yuex.Events.Tools.{
  ToolAudit, ToolEventType, ToolOutcome, ToolInvocation, RunRecord, RunStatus, project_invocation,
  project_stored, same_call, invocation_matches_event, abort_outstanding,
}
use yuex.Events.{
  RunEvent, EventLog, append_run_event, append_for, append_new, find_event, project, starts_late,
  store_event, empty_log, get_dispatch_event_cursor,
}
use yuex.Events.Log.{stored_for, Numbered}
use yuex.Events.History.{LogReach, KeepsRuns, Extends, Holds, append-refines, cursor-counts}
use yuex.Events.Invocations.{ended-invocation_stays}

abbrev call_name : ℕ → ℕ → ℕ
call_name run hash = run * 1000 + hash

abbrev its_run : ℕ → ℕ
its_run dispatch = 21

abbrev drafts : Map Dispatch
drafts = (51, draft) ∷ []

abbrev event_at : ℕ → RunEvent
event_at source = record {
  event_id = source + 900;
  run_id = 21;
  dispatch_id = 51;
  runtime_host_id = 7;
  sequence = 0;
  source_sequence = source;
  event_type = 3;
  payload_hash = source + 70;
  occurred_at = 5;
}

abbrev logged : EventLog
logged = record {
  events = (21, record (event_at 1) { sequence = 1 } ∷ []) ∷ [];
  cursors = (51, 1) ∷ [];
  run_records = [];
  invocations = [];
}

appends_first :
    append_run_event call_name (event_at 1) (ok none) 0 drafts empty_log ≡ (logged, ok tt)
unfolding append_run_event append_for append_new find_event project starts_late store_event lookup
    insert
appends_first = refl

-- The same event again, another one under its number, and one behind a gap.
answers_again :
    ((append_run_event call_name (event_at 1) (ok none) 0 drafts logged).1 ≡ ok tt)
    × ((append_run_event call_name
          (record (event_at 1) { payload_hash = 5 })
          (ok none)
          0
          drafts
          logged).1
        ≡ err runtime_event_gap)
    × ((append_run_event call_name (event_at 3) (ok none) 2 drafts logged).1
        ≡ err runtime_event_gap)
unfolding append_run_event append_for append_new find_event project starts_late store_event lookup
    insert
answers_again = (refl, refl, refl)

drafts-KeepsRuns : KeepsRuns call_name its_run drafts
unfolding lookup
drafts-KeepsRuns id d found = ground (arith, found)

reaches_logged : LogReach call_name its_run logged
unfolding append_run_event append_for append_new find_event project starts_late store_event lookup
    insert
reaches_logged = LogReach.append (event_at 1) (ok none) 0 drafts LogReach.empty drafts-KeepsRuns

append-refines_example :
    let x = append_run_event call_name (event_at 2) (ok none) 1 drafts logged in
    ((d : ℕ) → d ≢ 51 → stored_for 21 d x.0 ≡ stored_for 21 d logged)
    × Extends call_name its_run (event_at 2) (stored_for 21 51 logged) (stored_for 21 51 x.0)
    × (x.1 ≢ ok tt → x.0 ≡ logged)
    × (x.1 ≡ ok tt → Holds call_name its_run (event_at 2) x.0)
append-refines_example =
    append-refines call_name its_run (event_at 2) (ok none) 1 drafts logged reaches_logged
      drafts-KeepsRuns

cursor-counts_example :
    (get_dispatch_event_cursor 51 drafts logged
      ≡ ok (record {
        dispatch_id = 51;
        last_sequence = length (stored_for 21 51 logged);
        lower_bound = 1;
      }))
    × Numbered 1 (stored_for 21 51 logged)
unfolding lookup
cursor-counts_example =
    cursor-counts call_name its_run 51 draft drafts logged reaches_logged (λ k. omega (arith, k))
      refl

abbrev finishing : ToolAudit
finishing = record {
  event_type = ToolEventType.call_finished;
  schema_version = 1;
  tool_name = 2;
  tool_call_hash = 4;
  args_hash = 5;
  result_fingerprint = 6;
  outcome = ToolOutcome.succeeded;
  duration_ms = 8;
  bytes = 9;
  call = 1;
  repeat = 1;
  error_code = 0;
}

abbrev ended_call : ToolInvocation
ended_call = record {
  invocation_id = 21004;
  run_id = 21;
  tool_name = 2;
  args_hash = 5;
  workspace_version = 3;
  result_fingerprint = 6;
  status = ToolOutcome.succeeded;
  repeat = 1;
  cache_hit = false;
  duration_ms = 8;
  bytes = 9;
  call = 1;
  error_code = 0;
  schema_version = 1;
  tool_call_hash = 4;
  terminal_converged = false;
}

abbrev run_kept : Map RunRecord
run_kept = (21, record { workspace_version = 3; status = RunStatus.unfinished }) ∷ []

ended-invocation_stays_example :
    (lookup 21004 ((21004, ended_call) ∷ []) ≡ some ended_call)
    × (lookup 21004 (abort_outstanding 21 99 ((21004, ended_call) ∷ [])) ≡ some ended_call)
unfolding lookup project_invocation project_stored same_call invocation_matches_event
ended-invocation_stays_example =
    ended-invocation_stays call_name 21 21004 99 ended_call finishing run_kept
      ((21004, ended_call) ∷ []) ((21004, ended_call) ∷ []) refl refl refl
