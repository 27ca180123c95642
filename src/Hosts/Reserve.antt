-- ===== src/Hosts/Reserve.antt =====
-- TryReserveSlot of runtime_host_concurrency.go, in its in-memory form: the validation, the choice
-- of the least loaded eligible host, and the new reservation. The clock is an argument.
use yuex.Prelude.{
  ℕ, ◌+◌, ◌*◌, Bool, true, false, not, ◌&&◌, ◌||◌, Option, none, some, List, [], ◌∷◌, String, ltb,
  leb, ◌==◌, is_zero, if◌then◌else◌, lookup, insert, values, select, any, sort, Map, ErrorCode,
  invalid_argument, runtime_tool_unavailable, runtime_capacity_unavailable,
  runtime_tool_budget_unsupported, Result, ok, err,
}
use yuex.Capabilities.{
  is_agent_facing_runtime_tool, has_tools, validate_runtime_capability_snapshot,
}
use yuex.Hosts.Types.{
  RuntimeHost, Reservation, Repository, ReserveCommand, ReservationState, ScopeSource, is_ready,
  is_reconciled, valid_execution_scope, attestation_required, host_within_target,
}
use yuex.Hosts.Slots.{increment_reserved}

all_agent_facing : List String → Bool
all_agent_facing [] = true
all_agent_facing (tool ∷ tools) = is_agent_facing_runtime_tool tool && all_agent_facing tools

-- validateAtomicReservationCommand
unfoldable pub validate_reserve_command : ReserveCommand → Option ErrorCode
unfolding all_agent_facing
validate_reserve_command c =
    if is_zero c.reservation_id
      || is_zero c.run_id
      || is_zero c.owner_instance_id
      || is_zero c.capability_hash
      || is_zero c.lease_token_hash
      || ltb c.fencing_token 1
      || is_zero c.expires_at
      || not (valid_execution_scope c.execution_scope)
    then some invalid_argument
    else if all_agent_facing c.required_tools
    then none
    else some runtime_tool_unavailable

-- The negation of the first `continue` in the loop over the hosts.
unfoldable pub passes_filters : ReserveCommand → RuntimeHost → Bool
passes_filters c host =
    is_ready host.status
    && is_reconciled host.recovery_state
    && host.capability_hash == c.capability_hash
    && (is_zero c.runtime_version || host.runtime_version == c.runtime_version)
    && (is_zero c.adapter_version || host.adapter_version == c.adapter_version)
    && (is_zero c.heartbeat_after || leb c.heartbeat_after host.last_heartbeat_at)
    && (is_zero c.affinity_runtime_host_id || host.runtime_host_id == c.affinity_runtime_host_id)
    && host_within_target host c.execution_scope
    && has_tools host.capabilities.tools c.required_tools

-- The check that only a production-like host has to pass.
unfoldable pub attested_capability_error : RuntimeHost → Option ErrorCode
attested_capability_error host =
    if attestation_required host.environment
    then validate_runtime_capability_snapshot host.capabilities
    else none

passes_attestation : Option ErrorCode → Bool
passes_attestation none = true
passes_attestation (some e) = false

is_budget_error : Option ErrorCode → Bool
is_budget_error (some ErrorCode.runtime_tool_budget_unsupported) = true
is_budget_error _ = false

unfoldable pub eligible : ReserveCommand → RuntimeHost → Bool
unfolding passes_attestation
eligible c host = passes_filters c host && passes_attestation (attested_capability_error host)

budget_blocked : ReserveCommand → RuntimeHost → Bool
unfolding is_budget_error
budget_blocked c host = passes_filters c host && is_budget_error (attested_capability_error host)

-- The order of sort.Slice: by the share of the slots in use, compared as fractions, then by name.
-- Every eligible host has a positive maximum.
unfoldable pub less_loaded : RuntimeHost → RuntimeHost → Bool
less_loaded a b =
    let left = (a.active_runs + a.reserved_runs) * b.max_active_runs in
    let right = (b.active_runs + b.reserved_runs) * a.max_active_runs in
    if left == right then ltb a.runtime_host_id b.runtime_host_id else ltb left right

unfoldable pub candidates : ReserveCommand → Map RuntimeHost → List RuntimeHost
candidates c hosts = sort less_loaded (select (eligible c) (values hosts))

unfoldable pub new_reservation : ReserveCommand → ℕ → RuntimeHost → Reservation
new_reservation c now host = record {
  reservation_id = c.reservation_id;
  run_id = c.run_id;
  runtime_host_id = host.runtime_host_id;
  assigned_instance_id = host.instance_id;
  assigned_instance_generation = host.instance_generation;
  owner_instance_id = c.owner_instance_id;
  state = ReservationState.reserved;
  fencing_token = c.fencing_token;
  lease_token_hash = c.lease_token_hash;
  capability_hash = c.capability_hash;
  execution_scope = c.execution_scope;
  execution_scope_source = ScopeSource.explicit;
  dispatch_id = 0;
  version = 1;
  last_renewed_at = now;
  expires_at = c.expires_at;
  created_at = now;
  updated_at = now;
}

unfoldable pub claim_slot : ReserveCommand → RuntimeHost → RuntimeHost
claim_slot c host = record host { slots = increment_reserved host.slots c.execution_scope }

-- The writes of a reservation on a host.
unfoldable pub with_slot : ReserveCommand → ℕ → RuntimeHost → Repository → Repository
unfolding new_reservation claim_slot
with_slot c now host r = record r {
  hosts = insert host.runtime_host_id (claim_slot c host) r.hosts;
  reservations = insert c.reservation_id (new_reservation c now host) r.reservations;
  active_reservation_by_run = insert c.run_id c.reservation_id r.active_reservation_by_run;
}

-- The reservation on the first candidate.
unfoldable pub reserve_first :
    ReserveCommand
    → ℕ
    → List RuntimeHost
    → Repository
    → Repository × Result (Reservation × RuntimeHost)
unfolding budget_blocked
reserve_first c now [] r = (
  r,
  err (
      if any (budget_blocked c) (values r.hosts)
      then runtime_tool_budget_unsupported
      else runtime_capacity_unavailable),
)
reserve_first c now (host ∷ rest) r =
    (with_slot c now host r, ok (new_reservation c now host, claim_slot c host))

-- r.activeReservationByRun[run] != ""
unfoldable pub run_has_slot : ℕ → Map ℕ → Bool
run_has_slot run m = elim (lookup run m) [ none ↦ false | some id ↦ not (is_zero id) ]

unfoldable pub try_reserve_slot_memory :
    ReserveCommand → ℕ → Repository → Repository × Result (Reservation × RuntimeHost)
try_reserve_slot_memory c now r =
    if run_has_slot c.run_id r.active_reservation_by_run
    then (r, err runtime_capacity_unavailable)
    else reserve_first c now (candidates c r.hosts) r

-- TryReserveSlot
unfoldable pub try_reserve_slot :
    ReserveCommand → ℕ → Repository → Repository × Result (Reservation × RuntimeHost)
try_reserve_slot c now r = elim (validate_reserve_command c) [
  | some e ↦ (r, err e)
  | none ↦ try_reserve_slot_memory c now r
]
