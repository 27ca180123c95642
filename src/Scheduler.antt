-- ===== src/Scheduler.antt =====
-- RuntimeScheduler of extracted/go-runtime-control-plane/internal/runtime/runtime_scheduler.go: the
-- acceptance of a dispatch over the two in-memory repositories, the classification of a dispatch for
-- recovery, and the mapping of error codes.
pub mod Atomic
pub mod Decisions
pub mod Handles
use yuex.Prelude.{
  ℕ, String, Bool, true, false, not, ◌&&◌, ◌||◌, Option, none, some, List, [], ◌∷◌, ◌==◌, is_zero,
  if◌then◌else◌, trim_space, lower_eq, Map, ErrorCode, stale_fencing_token,
  runtime_capacity_unavailable, runtime_session_busy, service_busy, distributed_lock_unavailable,
  Result, Done, ok, err,
}
use yuex.Hosts.Types.{
  Reservation, Dispatch, Repository, AcceptedCommand, ReservationState, DispatchState,
}
use yuex.Hosts.Accept.{validate_confirm, apply_confirm}
use yuex.Hosts.Recovery.{is_created}
use yuex.Capacity.{CapacityReservation, commit_accepted_memory}

-- mapRuntimeScheduleError on an error
abbrev pub map_schedule_code : ErrorCode → ErrorCode
map_schedule_code ErrorCode.service_busy = runtime_capacity_unavailable
map_schedule_code ErrorCode.runtime_session_busy = runtime_capacity_unavailable
map_schedule_code ErrorCode.distributed_lock_unavailable = runtime_capacity_unavailable
map_schedule_code e = e

-- mapRuntimeScheduleError
abbrev pub map_schedule_error : Done → Done
map_schedule_error (ok done) = ok done
map_schedule_error (err e) = err (map_schedule_code e)

-- The two repositories whose mutexes acceptMemory holds.
pub record Books : Type 0 where
  pub capacity : Map CapacityReservation
  pub hosts : Repository

-- The last step of acceptMemory, after the capacity commit.
apply_committed : AcceptedCommand → ℕ → Repository → Map CapacityReservation × Done → Books × Done
apply_committed c now hosts (items, err e) =
    (record { capacity = items; hosts = hosts }, map_schedule_error (err e))
apply_committed c now hosts (items, ok done) =
    (record { capacity = items; hosts = apply_confirm c now hosts }, ok done)

commit_validated :
    CapacityReservation
    → AcceptedCommand
    → ℕ
    → Map CapacityReservation
    → Repository × Done
    → Books × Done
unfolding apply_committed
commit_validated item c now items (hosts, err e) =
    (record { capacity = items; hosts = hosts }, map_schedule_error (err e))
commit_validated item c now items (hosts, ok done) =
    apply_committed c now hosts (commit_accepted_memory item now items)

-- acceptMemory
unfoldable pub accept_memory : CapacityReservation → AcceptedCommand → ℕ → Books → Books × Done
unfolding commit_validated
accept_memory item c now b = commit_validated item c now b.capacity (validate_confirm c now b.hosts)

pub data RecoveryAction : Type 0 where
  deferred resume_events orphaned release_before_accept retry_same_host : RecoveryAction

pub data RecoveryError : Type 0 where
  no_error run_id_mismatch status_conflict not_accepted run_not_found : RecoveryError
  status_error : ℕ → RecoveryError

-- What the runtime answered: a status word with the run that it names, or an error, with the answer of
-- runtimeRecoveryStatusNotFound on the error's text.
pub data StatusReply : Type 0 where
  answered : String → ℕ → StatusReply
  refused : ℕ → Bool → StatusReply

pub record Decision : Type 0 where
  pub action : RecoveryAction
  pub error : RecoveryError

one_of : String → List String → Bool
one_of status [] = false
one_of status (word ∷ words) = lower_eq (trim_space status) word || one_of status words

abbrev accepted_words : List String
accepted_words =
    "accepted" ∷ "materializing" ∷ "running" ∷ "finalizing" ∷ "aborting" ∷ "succeeded" ∷ "failed"
    ∷ "timeout" ∷ "aborted" ∷ []

abbrev missing_words : List String
missing_words = "not_found" ∷ "missing" ∷ []

abbrev slot_in_use : ReservationState → Bool
slot_in_use ReservationState.accepted = true
slot_in_use ReservationState.running = true
slot_in_use _ = false

abbrev run_in_progress : DispatchState → Bool
run_in_progress DispatchState.accepted = true
run_in_progress DispatchState.materializing = true
run_in_progress DispatchState.running = true
run_in_progress DispatchState.finalizing = true
run_in_progress _ = false

-- postAccept
abbrev pub post_accept : Dispatch → Reservation → Bool
post_accept d item = slot_in_use item.state || run_in_progress d.state

-- The decision for a run that the runtime does not know.
decide_missing : Dispatch → Reservation → Decision
decide_missing d item = record {
  action =
      if post_accept d item
      then orphaned
      else if is_created d.state
      then release_before_accept
      else retry_same_host;
  error = run_not_found;
}

-- classifyRuntimeDispatchRecovery, without the rows that the decision carries along.
unfoldable pub classify_dispatch_recovery : Dispatch → Reservation → StatusReply → Decision
unfolding decide_missing one_of
classify_dispatch_recovery d item (refused e false) = record {
  action = deferred;
  error = status_error e;
}
classify_dispatch_recovery d item (refused e true) = decide_missing d item
classify_dispatch_recovery d item (answered status run) =
    if not (is_zero run) && not (run == d.run_id)
    then record { action = deferred; error = run_id_mismatch }
    else if one_of status accepted_words
    then record { action = resume_events; error = no_error }
    else if lower_eq (trim_space status) "rejected"
    then (if post_accept d item
        then record { action = orphaned; error = status_conflict }
        else record { action = release_before_accept; error = not_accepted })
    else if one_of status missing_words
    then decide_missing d item
    else record { action = deferred; error = no_error }
