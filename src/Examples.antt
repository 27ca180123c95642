-- ===== src/Examples.antt =====
-- A small run of the program: one host of four slots, one run that is reserved, dispatched, accepted
-- and finished, and a capacity reservation beside it. The properties are applied to it.
use yuex.Prelude.{
  ℕ, true, false, none, some, [], refl, ok, err, ◌≡◌, ◌∷◌, Distinct, runtime_capacity_unavailable,
  total, runtime_tool_unavailable, arith, any, delete, insert, insert_sorted, lookup, lower_eq,
  select, sort, trim_space, values,
}
use yuex.Capabilities.{
  CapabilitySnapshot, default_runtime_tool_budget_execution_contract, ToolCapability, has_tools,
  is_agent_facing_runtime_tool, ready_against, ready_under, runtime_tool_capability_ready,
  runtime_tool_contract_for, validate_agent_facing_runtime_tools,
}
use yuex.Hosts.Types.{
  RuntimeHost, Reservation, Dispatch, Repository, Fence, ReserveCommand, AcceptedCommand,
  RecoveryClaim, TerminalCommand, DispatchState, ReservationState, AbortStatus, ExecutionScope,
  ScopeSource, HostStatus, new_repository, RecoveryAcceptedCommand, attestation_required,
  host_within_target,
}
use yuex.Hosts.Slots.{
  no_slots, decrement_active, decrement_reserved, increment_active, increment_reserved,
}
use yuex.Hosts.Registry.{
  HostIdentity, Registration, Heartbeat, register_host, heartbeat_host, fresh_host, beat,
  rejoin_host,
}
use yuex.Hosts.Reserve.{
  try_reserve_slot, eligible, validate_reserve_command, run_has_slot, attested_capability_error,
  candidates, claim_slot, less_loaded, new_reservation, passes_filters, reserve_first,
  try_reserve_slot_memory, with_slot,
}
use yuex.Hosts.Dispatches.{
  create_dispatch, mark_dispatch_sent, DispatchState-discrete, crossed, dispatch_is_complete,
  has_capacity_binding, identified, is_legacy_capacity_unbound, mark_dispatch_boundary,
  run_is_dispatched, started, state_eq,
}
use yuex.Hosts.Accept.{
  confirm_dispatch_accepted, accept_slot, accepted_command_is_complete, accepted_dispatch,
  accepted_item, activate, apply_confirm, schedule_probe, validate_confirm,
}
use yuex.Hosts.Recovery.{
  finalize_dispatch_and_release_slot, claim_dispatch_recovery, advance_dispatch_recovery, advanced,
  claim_holds, claimed, claimed_by_other, close_dispatch, closed, end_if_active, holds_claim,
}
use yuex.Hosts.System.{
  Reach, start, step, register, heartbeat, reserve, create, send, confirm, finalize, claim,
}
use yuex.Hosts.System.Invariants.{Reach-Sound}
use yuex.Hosts.System.Keeps.{Sound}
use yuex.Hosts.Lease.{
  renew_reservation, release_reservation_fenced, ended_state, end_slot, ended_item, extend_lease,
  give_back, is_protected,
}
use yuex.Hosts.Lifecycle.Closed.{Settled}
use yuex.Hosts.Fencing.Expiry.{expires}
use yuex.Hosts.Store.{
  reservation_fence_matches, dispatch_binding_matches, dispatch_owner_matches, update_slots,
}
use yuex.Hosts.Accounting.{Counter, weight_on}
use yuex.CapacityExamples.{shares, share, other_share, committed_shares}
use yuex.Scheduler.{Books, accept_memory}
use yuex.Capacity.{commit_accepted_memory, same_generation}

abbrev pub digest : Reservation → Dispatch → ℕ
digest item d = 99

abbrev pub identity : HostIdentity
identity = record { runtime_host_id = 7; instance_id = 70; environment = "dev" }

abbrev pub snapshot : CapabilitySnapshot
snapshot = record {
  capability_hash = 9;
  tools = [];
  submit_binding = record { version = "runtime_submit_binding.v2"; product_session_hash = true };
  max_tool_calls_supported = 200;
  supports_per_run_budget = true;
  supports_budget_warning = true;
  supports_forced_abort = true;
  budget_execution = default_runtime_tool_budget_execution_contract;
}

abbrev pub registration : Registration
registration = record {
  endpoint = 1;
  zone = 1;
  runtime_version = 1;
  adapter_version = 1;
  capabilities = snapshot;
  session_store_id = 1;
  max_active_runs = 4;
  max_product_thread_runs = 0;
  max_detached_task_runs = 0;
}

abbrev pub pulse : Heartbeat
pulse = record {
  sequence = 1;
  observed_at = 105;
  active_runs = 0;
  reserved_runs = 0;
  capability_hash = 9;
  signature_key_id = 3;
}

abbrev pub wish : ReserveCommand
wish = record {
  reservation_id = 11;
  run_id = 21;
  owner_instance_id = 31;
  execution_scope = ExecutionScope.product_thread;
  capability_hash = 9;
  runtime_version = 0;
  adapter_version = 0;
  required_tools = [];
  affinity_runtime_host_id = 0;
  lease_token_hash = 41;
  fencing_token = 1;
  expires_at = 1000;
  heartbeat_after = 0;
}

abbrev pub draft : Dispatch
draft = record {
  dispatch_id = 51;
  run_id = 21;
  reservation_id = 11;
  capacity_reservation_id = 0;
  capacity_reserved_version = 0;
  runtime_host_id = 7;
  assigned_instance_id = 0;
  assigned_instance_generation = 0;
  dispatch_identity = 0;
  dispatch_attempt = 1;
  plan_version = 1;
  state = DispatchState.created;
  fencing_token = 1;
  run_ticket_jti_hash = 61;
  ticket_expires_at = 900;
  input_manifest_hash = 62;
  runtime_request_id = 0;
  abort_requested_at = 0;
  abort_status = AbortStatus.unrequested;
  owner_instance_id = 31;
  lease_token_hash = 41;
  lease_expires_at = 1000;
  recovery_owner_instance_id = 0;
  recovery_fencing_token = 0;
  recovery_expires_at = 0;
  recovery_attempt = 0;
  next_recovery_check_at = 0;
  version = 0;
  created_at = 0;
  updated_at = 0;
}

abbrev pub fence : Fence
fence = record {
  reservation_id = 11;
  runtime_host_id = 7;
  owner_instance_id = 31;
  lease_token_hash = 41;
  fencing_token = 1;
}

abbrev pub acceptance : AcceptedCommand
acceptance = record { fence = fence; dispatch_id = 51; runtime_request_id = 71 }

abbrev pub finish : TerminalCommand
finish = record {
  fence = fence;
  dispatch_id = 51;
  terminal_status = DispatchState.succeeded;
  recovery_claim = none;
}

-- The claim of a second process on the accepted dispatch, of version 3.
abbrev pub takeover : RecoveryClaim
takeover = record {
  dispatch_id = 51;
  owner_instance_id = 32;
  fencing_token = 5;
  expires_at = 500;
  expected_state = DispatchState.accepted;
  expected_version = 3;
}

abbrev pub rival : RecoveryClaim
rival = record takeover { owner_instance_id = 33; expected_version = 3 }

-- The states of the run.
abbrev pub registered : Repository
registered = (register_host identity registration 100 new_repository).0

abbrev pub beating : Repository
beating = (heartbeat_host identity pulse 105 registered).0

abbrev pub held : Repository
held = (try_reserve_slot wish 110 beating).0

abbrev pub drafted : Repository
drafted = (create_dispatch digest draft 120 held).0

abbrev pub sent_off : Repository
sent_off = (mark_dispatch_sent 51 fence 130 drafted).0

abbrev pub running : Repository
running = (confirm_dispatch_accepted acceptance 140 sent_off).0

abbrev pub done : Repository
done = (finalize_dispatch_and_release_slot finish 200 running).0

abbrev pub taken_over : Repository
taken_over = (claim_dispatch_recovery takeover 150 running).0

pub Reach-beating : Reach digest beating
Reach-beating =
    step (step start (register identity registration 100)) (heartbeat identity pulse 105)

-- The identifiers are new.
pub new_reservation_id : lookup 11 beating.reservations ≡ none
unfolding lookup insert delete values select any trim_space lower_eq register_host fresh_host
    rejoin_host attestation_required validate_agent_facing_runtime_tools heartbeat_host beat
new_reservation_id = refl

new_dispatch_id : lookup 51 held.dispatches ≡ none
unfolding lookup insert delete values select any trim_space lower_eq register_host fresh_host
    rejoin_host attestation_required validate_agent_facing_runtime_tools heartbeat_host beat sort
    insert_sorted try_reserve_slot try_reserve_slot_memory validate_reserve_command run_has_slot
    reserve_first candidates eligible passes_filters attested_capability_error host_within_target
    less_loaded has_tools with_slot new_reservation claim_slot increment_reserved
new_dispatch_id = refl

pub Reach-held : Reach digest held
Reach-held = step Reach-beating (reserve wish 110 new_reservation_id)

pub Reach-running : Reach digest running
Reach-running =
    step (step (step Reach-held (create draft 120 new_dispatch_id)) (send 51 fence 130))
      (confirm acceptance 140)

pub Reach-done : Reach digest done
Reach-done = step Reach-running (finalize finish 200)

-- What the calls of the run answer.
abbrev pub slot : Reservation
slot = record {
  reservation_id = 11;
  run_id = 21;
  runtime_host_id = 7;
  assigned_instance_id = 70;
  assigned_instance_generation = 1;
  owner_instance_id = 31;
  state = ReservationState.reserved;
  fencing_token = 1;
  lease_token_hash = 41;
  capability_hash = 9;
  execution_scope = ExecutionScope.product_thread;
  execution_scope_source = ScopeSource.explicit;
  dispatch_id = 0;
  version = 1;
  last_renewed_at = 110;
  expires_at = 1000;
  created_at = 110;
  updated_at = 110;
}

abbrev pub host : RuntimeHost
host = record (fresh_host identity registration 100) {
  status = HostStatus.ready;
  heartbeat_sequence = 1;
  last_heartbeat_at = 105;
  updated_at = 105;
  slots = record no_slots { reserved_runs = 1; reserved_product_thread_runs = 1 };
}

pub held_ok : try_reserve_slot wish 110 beating ≡ (held, ok (slot, host))
unfolding lookup insert delete values select any trim_space lower_eq register_host fresh_host
    rejoin_host attestation_required validate_agent_facing_runtime_tools heartbeat_host beat sort
    insert_sorted try_reserve_slot try_reserve_slot_memory validate_reserve_command run_has_slot
    reserve_first candidates eligible passes_filters attested_capability_error host_within_target
    less_loaded has_tools with_slot new_reservation claim_slot increment_reserved
held_ok = refl

pub running_ok : confirm_dispatch_accepted acceptance 140 sent_off ≡ (running, ok tt)
unfolding lookup insert delete values select any trim_space lower_eq register_host fresh_host
    rejoin_host attestation_required validate_agent_facing_runtime_tools heartbeat_host beat sort
    insert_sorted try_reserve_slot try_reserve_slot_memory validate_reserve_command run_has_slot
    reserve_first candidates eligible passes_filters attested_capability_error host_within_target
    less_loaded has_tools with_slot new_reservation claim_slot increment_reserved create_dispatch
    dispatch_is_complete has_capacity_binding is_legacy_capacity_unbound started identified
    run_is_dispatched mark_dispatch_sent mark_dispatch_boundary crossed dispatch_owner_matches
    dispatch_binding_matches confirm_dispatch_accepted validate_confirm apply_confirm
    accepted_command_is_complete reservation_fence_matches schedule_probe accept_slot accepted_item
    accepted_dispatch activate increment_active decrement_reserved update_slots
running_ok = refl

pub done_ok : finalize_dispatch_and_release_slot finish 200 running ≡ (done, ok tt)
unfolding lookup insert delete values select any trim_space lower_eq register_host fresh_host
    rejoin_host attestation_required validate_agent_facing_runtime_tools heartbeat_host beat sort
    insert_sorted try_reserve_slot try_reserve_slot_memory validate_reserve_command run_has_slot
    reserve_first candidates eligible passes_filters attested_capability_error host_within_target
    less_loaded has_tools with_slot new_reservation claim_slot increment_reserved create_dispatch
    dispatch_is_complete has_capacity_binding is_legacy_capacity_unbound started identified
    run_is_dispatched mark_dispatch_sent mark_dispatch_boundary crossed dispatch_owner_matches
    dispatch_binding_matches confirm_dispatch_accepted validate_confirm apply_confirm
    accepted_command_is_complete reservation_fence_matches schedule_probe accept_slot accepted_item
    accepted_dispatch activate increment_active decrement_reserved update_slots
    finalize_dispatch_and_release_slot close_dispatch closed end_if_active end_slot ended_item
    give_back claim_holds decrement_active
done_ok = refl

pub taken_over_ok : claim_dispatch_recovery takeover 150 running ≡ (taken_over, ok tt)
unfolding lookup insert delete values select any trim_space lower_eq register_host fresh_host
    rejoin_host attestation_required validate_agent_facing_runtime_tools heartbeat_host beat sort
    insert_sorted try_reserve_slot try_reserve_slot_memory validate_reserve_command run_has_slot
    reserve_first candidates eligible passes_filters attested_capability_error host_within_target
    less_loaded has_tools with_slot new_reservation claim_slot increment_reserved create_dispatch
    dispatch_is_complete has_capacity_binding is_legacy_capacity_unbound started identified
    run_is_dispatched mark_dispatch_sent mark_dispatch_boundary crossed dispatch_owner_matches
    dispatch_binding_matches confirm_dispatch_accepted validate_confirm apply_confirm
    accepted_command_is_complete reservation_fence_matches schedule_probe accept_slot accepted_item
    accepted_dispatch activate increment_active decrement_reserved update_slots
    finalize_dispatch_and_release_slot close_dispatch closed end_if_active end_slot ended_item
    give_back claim_holds decrement_active claim_dispatch_recovery claimed claimed_by_other state_eq
    DispatchState-discrete
taken_over_ok = refl

pub held_host : lookup 7 held.hosts ≡ some host
unfolding lookup insert delete values select any trim_space lower_eq register_host fresh_host
    rejoin_host attestation_required validate_agent_facing_runtime_tools heartbeat_host beat sort
    insert_sorted try_reserve_slot try_reserve_slot_memory validate_reserve_command run_has_slot
    reserve_first candidates eligible passes_filters attested_capability_error host_within_target
    less_loaded has_tools with_slot new_reservation claim_slot increment_reserved
held_host = refl

pub held_slot : lookup 11 held.reservations ≡ some slot
unfolding lookup insert delete values select any trim_space lower_eq register_host fresh_host
    rejoin_host attestation_required validate_agent_facing_runtime_tools heartbeat_host beat sort
    insert_sorted try_reserve_slot try_reserve_slot_memory validate_reserve_command run_has_slot
    reserve_first candidates eligible passes_filters attested_capability_error host_within_target
    less_loaded has_tools with_slot new_reservation claim_slot increment_reserved
held_slot = refl

pub Sound-beating : Sound beating
Sound-beating = Reach-Sound digest Reach-beating

pub Sound-held : Sound held
Sound-held = Reach-Sound digest Reach-held

pub Sound-running : Sound running
Sound-running = Reach-Sound digest Reach-running

pub Sound-sent : Sound sent_off
Sound-sent =
    Reach-Sound digest
      (step (step Reach-held (create draft 120 new_dispatch_id)) (send 51 fence 130))

-- The fence of an owner that has lost the slot.
abbrev pub old_fence : Fence
old_fence = record fence { owner_instance_id = 30 }

pub old_fence_fails : reservation_fence_matches slot old_fence ≡ false
unfolding reservation_fence_matches
old_fence_fails = refl

abbrev pub renewed : Repository
renewed = (renew_reservation fence 2000 120 held).0

pub renewed_ok : renew_reservation fence 2000 120 held ≡ (renewed, ok tt)
unfolding lookup insert delete values select any trim_space lower_eq register_host fresh_host
    rejoin_host attestation_required validate_agent_facing_runtime_tools heartbeat_host beat sort
    insert_sorted try_reserve_slot try_reserve_slot_memory validate_reserve_command run_has_slot
    reserve_first candidates eligible passes_filters attested_capability_error host_within_target
    less_loaded has_tools with_slot new_reservation claim_slot increment_reserved renew_reservation
    extend_lease reservation_fence_matches
renewed_ok = refl

abbrev pub freed_slot : Repository
freed_slot = (release_reservation_fenced fence 1 ReservationState.released 120 held).0

pub freed_ok :
    release_reservation_fenced fence 1 ReservationState.released 120 held ≡ (freed_slot, ok true)
unfolding lookup insert delete values select any trim_space lower_eq register_host fresh_host
    rejoin_host attestation_required validate_agent_facing_runtime_tools heartbeat_host beat sort
    insert_sorted try_reserve_slot try_reserve_slot_memory validate_reserve_command run_has_slot
    reserve_first candidates eligible passes_filters attested_capability_error host_within_target
    less_loaded has_tools with_slot new_reservation claim_slot increment_reserved
    release_reservation_fenced end_slot ended_item ended_state give_back decrement_reserved
    update_slots reservation_fence_matches
freed_ok = refl

pub released_is_final : ended_state ReservationState.released ≡ true
unfolding ended_state
released_is_final = refl

abbrev pub ended_slot : Reservation
ended_slot = record slot { state = ReservationState.released; version = 2; updated_at = 120 }

pub freed_found : lookup 11 freed_slot.reservations ≡ some ended_slot
unfolding lookup insert delete values select any trim_space lower_eq register_host fresh_host
    rejoin_host attestation_required validate_agent_facing_runtime_tools heartbeat_host beat sort
    insert_sorted try_reserve_slot try_reserve_slot_memory validate_reserve_command run_has_slot
    reserve_first candidates eligible passes_filters attested_capability_error host_within_target
    less_loaded has_tools with_slot new_reservation claim_slot increment_reserved
    release_reservation_fenced end_slot ended_item ended_state give_back decrement_reserved
    update_slots reservation_fence_matches
freed_found = refl

abbrev pub handed_back : Repository
handed_back = (advance_dispatch_recovery takeover DispatchState.accepted 600 170 taken_over).0

pub handed_back_ok :
    advance_dispatch_recovery takeover DispatchState.accepted 600 170 taken_over
    ≡ (handed_back, ok tt)
unfolding lookup insert delete values select any trim_space lower_eq register_host fresh_host
    rejoin_host attestation_required validate_agent_facing_runtime_tools heartbeat_host beat sort
    insert_sorted try_reserve_slot try_reserve_slot_memory validate_reserve_command run_has_slot
    reserve_first candidates eligible passes_filters attested_capability_error host_within_target
    less_loaded has_tools with_slot new_reservation claim_slot increment_reserved create_dispatch
    dispatch_is_complete has_capacity_binding is_legacy_capacity_unbound started identified
    run_is_dispatched mark_dispatch_sent mark_dispatch_boundary crossed dispatch_owner_matches
    dispatch_binding_matches confirm_dispatch_accepted validate_confirm apply_confirm
    accepted_command_is_complete reservation_fence_matches schedule_probe accept_slot accepted_item
    accepted_dispatch activate increment_active decrement_reserved update_slots
    finalize_dispatch_and_release_slot close_dispatch closed end_if_active end_slot ended_item
    give_back claim_holds decrement_active claim_dispatch_recovery claimed claimed_by_other state_eq
    DispatchState-discrete advance_dispatch_recovery advanced holds_claim
handed_back_ok = refl

pub Sound-taken_over : Sound taken_over
Sound-taken_over = Reach-Sound digest (step Reach-running (claim takeover 150))

pub done-Settled : Settled 51 DispatchState.succeeded done
unfolding lookup insert delete values select any trim_space lower_eq register_host fresh_host
    rejoin_host attestation_required validate_agent_facing_runtime_tools heartbeat_host beat sort
    insert_sorted try_reserve_slot try_reserve_slot_memory validate_reserve_command run_has_slot
    reserve_first candidates eligible passes_filters attested_capability_error host_within_target
    less_loaded has_tools with_slot new_reservation claim_slot increment_reserved create_dispatch
    dispatch_is_complete has_capacity_binding is_legacy_capacity_unbound started identified
    run_is_dispatched mark_dispatch_sent mark_dispatch_boundary crossed dispatch_owner_matches
    dispatch_binding_matches confirm_dispatch_accepted validate_confirm apply_confirm
    accepted_command_is_complete reservation_fence_matches schedule_probe accept_slot accepted_item
    accepted_dispatch activate increment_active decrement_reserved update_slots
    finalize_dispatch_and_release_slot close_dispatch closed end_if_active end_slot ended_item
    give_back claim_holds decrement_active
done-Settled = (_, refl, refl, refl)

-- Before and after the end of the lease.
pub slot_spared : expires 500 slot held.dispatches ≡ false
unfolding lookup insert delete values select any trim_space lower_eq register_host fresh_host
    rejoin_host attestation_required validate_agent_facing_runtime_tools heartbeat_host beat sort
    insert_sorted try_reserve_slot try_reserve_slot_memory validate_reserve_command run_has_slot
    reserve_first candidates eligible passes_filters attested_capability_error host_within_target
    less_loaded has_tools with_slot new_reservation claim_slot increment_reserved is_protected
slot_spared = refl

pub slot_due : expires 1000 slot held.dispatches ≡ true
unfolding lookup insert delete values select any trim_space lower_eq register_host fresh_host
    rejoin_host attestation_required validate_agent_facing_runtime_tools heartbeat_host beat sort
    insert_sorted try_reserve_slot try_reserve_slot_memory validate_reserve_command run_has_slot
    reserve_first candidates eligible passes_filters attested_capability_error host_within_target
    less_loaded has_tools with_slot new_reservation claim_slot increment_reserved is_protected
slot_due = refl

pub wish_valid : validate_reserve_command wish ≡ none
unfolding validate_reserve_command
wish_valid = refl

pub run_is_idle : run_has_slot 21 beating.active_reservation_by_run ≡ false
unfolding lookup insert delete values select any trim_space lower_eq register_host fresh_host
    rejoin_host attestation_required validate_agent_facing_runtime_tools heartbeat_host beat
    run_has_slot
run_is_idle = refl

abbrev pub idle_host : RuntimeHost
idle_host = record (fresh_host identity registration 100) {
  status = HostStatus.ready;
  heartbeat_sequence = 1;
  last_heartbeat_at = 105;
  updated_at = 105;
}

pub idle_host_found : lookup 7 beating.hosts ≡ some idle_host
unfolding lookup insert delete values select any trim_space lower_eq register_host fresh_host
    rejoin_host attestation_required validate_agent_facing_runtime_tools heartbeat_host beat
idle_host_found = refl

pub idle_host_fits : eligible wish idle_host ≡ true
unfolding lookup insert delete values select any trim_space lower_eq register_host fresh_host
    rejoin_host attestation_required validate_agent_facing_runtime_tools heartbeat_host beat sort
    insert_sorted try_reserve_slot try_reserve_slot_memory validate_reserve_command run_has_slot
    reserve_first candidates eligible passes_filters attested_capability_error host_within_target
    less_loaded has_tools with_slot new_reservation claim_slot increment_reserved
idle_host_fits = refl

-- The same wish of another run, for a tool that agents do not have.
abbrev pub bad_wish : ReserveCommand
bad_wish = record wish { reservation_id = 12; run_id = 22; required_tools = "shell" ∷ [] }

pub bad_wish_refused : try_reserve_slot bad_wish 115 held ≡ (held, err runtime_tool_unavailable)
unfolding lookup insert delete values select any trim_space lower_eq register_host fresh_host
    rejoin_host attestation_required validate_agent_facing_runtime_tools heartbeat_host beat sort
    insert_sorted try_reserve_slot try_reserve_slot_memory validate_reserve_command run_has_slot
    reserve_first candidates eligible passes_filters attested_capability_error host_within_target
    less_loaded has_tools with_slot new_reservation claim_slot increment_reserved
    is_agent_facing_runtime_tool
bad_wish_refused = refl

abbrev pub running_slot : Reservation
running_slot = record slot { state = ReservationState.running }

abbrev pub sent_draft : Dispatch
sent_draft = record draft { state = DispatchState.sent }

-- A host tool that keeps to the program's contract for `read`.
abbrev pub reader : ToolCapability
reader = record {
  name = "read";
  status = "ready";
  source = "openclaw_core";
  plugin_id = "openclaw-core";
  plugin_version = "2026.6.2";
  schema_id = "openclaw.core.read.v2026.6.2";
  schema_hash = "sha256:134f19bcabe3e29d63c5cebb38f1d2556759fd08adad6bc90a4b4d3cd1fb8441";
}

pub reader_serves : has_tools (reader ∷ []) ("read" ∷ []) ≡ true
unfolding lookup insert delete values select any trim_space lower_eq has_tools
    is_agent_facing_runtime_tool ready_under runtime_tool_capability_ready ready_against
    runtime_tool_contract_for
reader_serves = refl

abbrev pub old_acceptance : AcceptedCommand
old_acceptance = record acceptance { fence = old_fence }

abbrev pub old_finish : TerminalCommand
old_finish = record finish { fence = old_fence }

abbrev pub old_recovery : RecoveryAcceptedCommand
old_recovery = record {
  claim = takeover;
  fence = old_fence;
  runtime_request_id = 71;
  next_check_at = 600;
}

-- The two books of the scheduler, before and after the acceptance.
abbrev pub books : Books
books = record { capacity = shares; hosts = sent_off }

abbrev pub accepted_books : Books
accepted_books = record { capacity = committed_shares; hosts = running }

pub accepted_ok : accept_memory share acceptance 140 books ≡ (accepted_books, ok tt)
unfolding lookup insert delete values select any trim_space lower_eq register_host fresh_host
    rejoin_host attestation_required validate_agent_facing_runtime_tools heartbeat_host beat sort
    insert_sorted try_reserve_slot try_reserve_slot_memory validate_reserve_command run_has_slot
    reserve_first candidates eligible passes_filters attested_capability_error host_within_target
    less_loaded has_tools with_slot new_reservation claim_slot increment_reserved create_dispatch
    dispatch_is_complete has_capacity_binding is_legacy_capacity_unbound started identified
    run_is_dispatched mark_dispatch_sent mark_dispatch_boundary crossed dispatch_owner_matches
    dispatch_binding_matches confirm_dispatch_accepted validate_confirm apply_confirm
    accepted_command_is_complete reservation_fence_matches schedule_probe accept_slot accepted_item
    accepted_dispatch activate increment_active decrement_reserved update_slots accept_memory
    commit_accepted_memory same_generation
accepted_ok = refl

pub refused_ok :
    accept_memory other_share acceptance 140 books ≡ (books, err runtime_capacity_unavailable)
unfolding lookup insert delete values select any trim_space lower_eq register_host fresh_host
    rejoin_host attestation_required validate_agent_facing_runtime_tools heartbeat_host beat sort
    insert_sorted try_reserve_slot try_reserve_slot_memory validate_reserve_command run_has_slot
    reserve_first candidates eligible passes_filters attested_capability_error host_within_target
    less_loaded has_tools with_slot new_reservation claim_slot increment_reserved create_dispatch
    dispatch_is_complete has_capacity_binding is_legacy_capacity_unbound started identified
    run_is_dispatched mark_dispatch_sent mark_dispatch_boundary crossed dispatch_owner_matches
    dispatch_binding_matches confirm_dispatch_accepted validate_confirm apply_confirm
    accepted_command_is_complete reservation_fence_matches schedule_probe accept_slot accepted_item
    accepted_dispatch activate increment_active decrement_reserved update_slots accept_memory
    commit_accepted_memory same_generation
refused_ok = refl

-- A host whose counters have drifted.
abbrev pub drifted : Repository
drifted = record held {
  hosts =
      (7, record idle_host { slots = record no_slots { active_runs = 3; reserved_runs = 9 } }) ∷ [];
}

pub drifted-Distinct : Distinct drifted.hosts
unfolding lookup insert delete values select any trim_space lower_eq
drifted-Distinct = (refl, tt)

pub drifted_keys :
    (h : ℕ) (x : RuntimeHost) → lookup h drifted.hosts ≡ some x → x.runtime_host_id ≡ h
unfolding lookup insert delete values select any trim_space lower_eq fresh_host
drifted_keys h x e = ground (arith, e)

pub drifted_nowhere :
    (h : ℕ) (c : Counter)
    → lookup h drifted.hosts ≡ none
    → total (weight_on h c) drifted.reservations ≡ 0
unfolding lookup insert delete values select any trim_space lower_eq register_host fresh_host
    rejoin_host attestation_required validate_agent_facing_runtime_tools heartbeat_host beat sort
    insert_sorted try_reserve_slot try_reserve_slot_memory validate_reserve_command run_has_slot
    reserve_first candidates eligible passes_filters attested_capability_error host_within_target
    less_loaded has_tools with_slot new_reservation claim_slot increment_reserved total
drifted_nowhere h c e = ground (arith, e)
